-- ===== src/Daemon/Stamp.antt =====
-- `_claim_spawn_stamp` of daemon_ensure.py, a system call at a time, by any number of hooks at once.
-- The stamp file is its time of change, or nothing where it is not there.
use omnicursor.Prelude.{
  ℕ, ◌+◌, ◌-◌, ◌≡◌, Bool, true, false, Option, none, some, List, [], ◌∷◌, leb, ◌==◌, if◌then◌else◌,
}

abbrev pub spawn_stamp_ttl : ℕ
spawn_stamp_ttl = 30000

-- Where a caller stands: before the first `os.open`, behind its FileExistsError, behind the test of
-- the age, behind the `unlink`, and behind the return.
pub data Pc : Type 0 where
  idle found stale retry : Pc
  done : Bool → Pc

-- `time.time() - stamp.stat().st_mtime <= _SPAWN_STAMP_TTL_S`
unfoldable pub is_fresh : ℕ → ℕ → Bool
is_fresh now mtime = leb (now - mtime) spawn_stamp_ttl

-- one system call of a caller that meets no error but a file that is or is not there
unfoldable pub claim_step : ℕ → Pc → Option ℕ → Pc × Option ℕ
claim_step now idle none = (done true, some now)
claim_step now idle (some mtime) = (found, some mtime)
claim_step now found none = (done false, none)
claim_step now found (some mtime) = (if is_fresh now mtime then done false else stale, some mtime)
claim_step now stale stamp = (retry, none)
claim_step now retry none = (done true, some now)
claim_step now retry (some mtime) = (done false, some mtime)
claim_step now (done won) stamp = (done won, stamp)

-- what another OSError at that call leads to
unfoldable pub claim_error : Pc → Pc
claim_error idle = done true
claim_error found = done false
claim_error stale = retry
claim_error retry = done false
claim_error (done won) = done won

-- the callers, each by its number, and what they share
pub record System : Type 0 where
  pub now : ℕ
  pub stamp : Option ℕ
  pub pc : ℕ → Pc

abbrev pub set_pc : (ℕ → Pc) → ℕ → Pc → ℕ → Pc
set_pc pc i p j = if i == j then p else pc j

abbrev pub call : System → ℕ → Pc × Option ℕ
call s i = claim_step s.now (s.pc i) s.stamp

abbrev pub advance : System → ℕ → System
advance s i = record s { stamp = (call s i).1; pc = set_pc s.pc i (call s i).0 }

abbrev pub stumble : System → ℕ → System
stumble s i = record s { pc = set_pc s.pc i (claim_error (s.pc i)) }

-- A caller makes its next call, time passes, or a call ends in another error, where there are such.
pub data Step (faulty : Bool) (s : System) : System → Type 0 where
  run : (i : ℕ) → Step faulty s (advance s i)
  wait : (d : ℕ) → Step faulty s (record s { now = s.now + d })
  fail : (i : ℕ) → faulty ≡ true → Step faulty s (stumble s i)

pub data Reach (faulty : Bool) (s : System) : System → Type 0 where
  start : Reach faulty s s
  later : {t u : System} → Reach faulty s t → Step faulty t u → Reach faulty s u

-- no caller has begun
abbrev pub fresh_start : Option ℕ → ℕ → System
fresh_start stamp now = record { now = now; stamp = stamp; pc = λ _. idle }

-- One caller whose calls meet these times and stamps, whatever others do in between.
unfoldable pub drive : Pc → List (ℕ × Option ℕ) → Pc
drive p [] = p
drive p ((now, stamp) ∷ views) = drive (claim_step now p stamp).0 views
