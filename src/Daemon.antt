-- ===== src/Daemon.antt =====
-- .cursor/hooks/lib/daemon_ensure.py: whether a hook starts the emit daemon, and by what command.
-- Times are whole milliseconds. `quote` is shlex.quote, `expanduser` that of Path.
pub mod Stamp
mod Claims
mod Ensure
mod Tests
use omnicursor.Prelude.{
  ℕ, Bool, true, false, not, ◌&&◌, ◌||◌, Option, none, some, List, [], ◌∷◌, ◌++◌, if◌then◌else◌,
  map,
}
use omnicursor.Text.{Text, codes, is_empty, join}

-- What the module reads of its surroundings.
pub record Host : Type 0 where
  pub quote : Text → Text
  pub expanduser : Text → Text
  -- the files that are there
  pub is_there : Text → Bool
  pub environ : Text → Option Text
  pub repo_root : Text
  pub omnicursor_dir : Text
  -- `str(default_socket_path())`
  pub socket_path : Text

-- `if py.exists()`
unfoldable pub if_there : Host → Text → Option Text
if_there h path = if h.is_there path then some path else none

unfoldable pub bundled_python : Host → Text
bundled_python h = h.repo_root ++ codes "/.venv/bin/python"

unfoldable pub python_of : Host → Option Text → Option Text
python_of h none = if_there h (bundled_python h)
python_of h (some env) =
    if is_empty env then if_there h (bundled_python h) else if_there h (h.expanduser env)

-- `_daemon_python`
unfoldable pub daemon_python : Host → Option Text
daemon_python h = python_of h (h.environ (codes "OMNICURSOR_DAEMON_PYTHON"))

-- `… or _DEFAULT_KAFKA_BOOTSTRAP`
unfoldable pub broker_of : Option Text → Text
broker_of none = codes "localhost:19092"
broker_of (some env) = if is_empty env then codes "localhost:19092" else env

-- `_kafka_bootstrap_servers`
unfoldable pub kafka_bootstrap_servers : Host → Text
kafka_bootstrap_servers h = broker_of (h.environ (codes "KAFKA_BOOTSTRAP_SERVERS"))

-- `_REGISTRY_PATH`
unfoldable pub registry_path : Host → Text
registry_path h = h.repo_root ++ codes "/config/event_registry/omnicursor.yaml"

-- `_daemon_command`
unfoldable pub daemon_command : Host → Text → List Text
daemon_command h py =
    py
    ∷ codes "-m"
    ∷ codes "omnimarket.nodes.node_emit_daemon"
    ∷ codes "start"
    ∷ codes "--socket-path"
    ∷ h.socket_path
    ∷ codes "--pid-path"
    ∷ (h.omnicursor_dir ++ codes "/emit.pid")
    ∷ codes "--kafka-bootstrap-servers"
    ∷ kafka_bootstrap_servers h
    ∷ codes "--spool-dir"
    ∷ (h.omnicursor_dir ++ codes "/event-spool")
    ∷ codes "--event-registry"
    ∷ registry_path h
    ∷ codes "--log-path"
    ∷ (h.omnicursor_dir ++ codes "/logs/emit-daemon.log")
    ∷ []

unfoldable pub import_check : Host → Text → Text → Text
import_check h py spawn_log =
    h.quote py
    ++ (codes " -c "
        ++ (h.quote (codes "import omnimarket.nodes.node_emit_daemon")
            ++ (codes " >/dev/null 2>>" ++ spawn_log)))

-- the script that `_spawn_detached` hands to /bin/sh
unfoldable pub spawn_script : Host → Text → Text
spawn_script h py =
    let spawn_log = h.quote (h.omnicursor_dir ++ codes "/logs/spawn.log") in
    let daemon_cmd = join (codes " ") (map h.quote (daemon_command h py)) in
    import_check h py spawn_log
    ++ (codes " && exec " ++ (daemon_cmd ++ (codes " 2>>" ++ spawn_log)))

-- What happens outside: the answer to the ping, whether the directories can be made, the claim of
-- the stamp.
pub record Luck : Type 0 where
  pub pinged : Bool
  pub dirs_made : Bool
  pub claimed : Bool

-- the answer, and the script that is started
pub record Ensured : Type 0 where
  pub available : Bool
  pub spawned : Option Text

unfoldable pub spawn_if : Bool → Text → Ensured
spawn_if go script = record { available = false; spawned = if go then some script else none }

unfoldable pub ensure_with : Host → Luck → Option Text → Ensured
ensure_with h luck none = record { available = false; spawned = none }
ensure_with h luck (some py) =
    if is_empty py || not (h.is_there (registry_path h))
    then record { available = false; spawned = none }
    else spawn_if (luck.dirs_made && luck.claimed) (spawn_script h py)

-- `ensure_daemon`
unfoldable pub ensure_daemon : Host → Luck → Ensured
ensure_daemon h luck =
    if luck.pinged
    then record { available = true; spawned = none }
    else ensure_with h luck (daemon_python h)
