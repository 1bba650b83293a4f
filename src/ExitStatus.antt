-- ===== src/ExitStatus.antt =====
-- bite/pctrl/pc_wait.c: the parent, which waits for a child and decodes its status.
use linux_note.Base.{ℕ, ◌+◌, ◌*◌, ◌/◌, ◌%◌, ◌<◌, ◌≡◌, Bool, arith, ◌==◌, if◌then◌else◌}

-- What `waitpid` returns: a number below 0, 0, or the process with its status.
pub data Waited : Type 0 where
  wait_failed none_ended : Waited
  ended : (pid status : ℕ) → Waited

-- What the parent prints.
pub data Report : Type 0 where
  waitpid_error no_child : Report
  return_val sig_code : (pid number : ℕ) → Report

-- `retval & 0x7f`, `(retval >> 8) & 0xff`
abbrev signal_bits : ℕ → ℕ
signal_bits status = status % 128

abbrev code_bits : ℕ → ℕ
code_bits status = status / 256 % 256

-- `main` from `waitpid` to its last loop.
report : Waited → Report
report wait_failed = waitpid_error
report none_ended = no_child
report (ended pid status) =
    if signal_bits status == 0
    then return_val pid (code_bits status)
    else sig_code pid (signal_bits status)

-- How a child ends: by `exit`, of whose argument 8 bits are kept, or by a signal, with a core file or without.
pub data Ending : Type 0 where
  exit : (code : ℕ) → Ending
  killed : (sig : ℕ) → (core : Bool) → Ending

-- The status that the kernel stores, as documented.
abbrev status_of : Ending → ℕ
status_of (exit code) = code % 256 * 256
status_of (killed sig core) = sig + (if core then 128 else 0)

abbrev IsEnding : Ending → Type 0
IsEnding (exit code) = Unit
IsEnding (killed sig core) = (0 < sig) × (sig < 127)

abbrev reported : ℕ → Ending → Report
reported pid (exit code) = return_val pid (code % 256)
reported pid (killed sig core) = sig_code pid sig

-- For each way in which a child can end, by `exit` or by a signal from 1 to 126, the parent prints the code of
-- `exit` modulo 256, or the signal, whether a core file was written or not.
report_lem : (pid : ℕ) (e : Ending) → IsEnding e → report (ended pid (status_of e)) ≡ reported pid e
unfolding report
report_lem pid (exit code) h = ground (arith, h)
report_lem pid (killed sig core) h = ground (arith, h)
