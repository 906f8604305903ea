-- ===== src/Daemon/Tests.antt =====
-- Runs of daemon_ensure.py, and the theorems about it at inputs.
use omnicursor.Prelude.{ℕ, ◌≡◌, refl, ◌↔◌, true, false, none, some, if◌then◌else◌, arith}
use omnicursor.Text.{Text, codes, is_empty}
use omnicursor.Daemon.{Host, daemon_python, spawn_script, Luck, Ensured, ensure_daemon}
use omnicursor.Daemon.Stamp.{
  done, claim_step, System, advance, run, Reach, start, later, fresh_start,
}
use omnicursor.Daemon.Claims.{claim_unique, claim-twice, claimable, alone}
use omnicursor.Daemon.Ensure.{Starts, ensure_daemon_iff}

abbrev host : Host
host = record {
  quote = λ s. s;
  expanduser = λ s. s;
  is_there = λ path. true;
  environ = λ name. none;
  repo_root = codes "/r";
  omnicursor_dir = codes "/o";
  socket_path = codes "/o/emit.sock";
}

abbrev lucky : Luck
lucky = record { pinged = false; dirs_made = true; claimed = true }

-- an explicit interpreter that is not there starts nothing
abbrev misconfigured : Host
misconfigured = record host { is_there = λ path. false; environ = λ name. some (codes "/nowhere") }

run_ensure : Host → Luck → Ensured
unfolding ensure_daemon omnicursor.Daemon.ensure_with omnicursor.Daemon.python_of
    omnicursor.Daemon.daemon_python omnicursor.Daemon.if_there omnicursor.Daemon.spawn_if is_empty
run_ensure h luck = ensure_daemon h luck

not_started : run_ensure misconfigured lucky ≡ record { available = false; spawned = none }
unfolding run_ensure
not_started = refl

-- the script that is started where all is there
abbrev started : Text
started = spawn_script host (codes "/r/.venv/bin/python")

ensure_daemon_iff_example :
    ((ensure_daemon host lucky).spawned ≡ some started)
    ↔ ((py : Text) × Starts host lucky py × (spawn_script host py ≡ started))
ensure_daemon_iff_example = ensure_daemon_iff host lucky started

-- two callers, the first of which claims the stamp
abbrev two_calls : System
two_calls = advance (advance (fresh_start none 5) 0) 1

claim_unique_example : ◌≡◌ {A = ℕ} 0 0
claim_unique_example =
    claim_unique {s = two_calls} 0 0 (later (later start (run 0)) (run 1)) (omega arith)
      (unfold claim_step in refl) (unfold claim_step in refl)

claim-twice_example :
    (s : System) × Reach false (fresh_start (some 0) 40000) s
    × (s.pc 0 ≡ done true)
    × (s.pc 1 ≡ done true)
claim-twice_example = claim-twice 0 40000 (omega arith)

alone_example :
    let s = advance (advance (advance (advance (fresh_start (some 0) 40000) 0) 0) 0) 0 in
    (s.pc 0 ≡ done (claimable 40000 (some 0)))
    × (s.stamp ≡ (if claimable 40000 (some 0) then some 40000 else some 0))
alone_example = alone 40000 (some 0)
