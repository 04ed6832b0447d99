-- ===== src/Tui/Capped.antt =====
-- cappedBuffer of cmd/ai.go and procWriter of cmd/aiproc.go: what a background process prints. A
-- write holds the process's lock from its first change to its last, so writes are one after the other.
pub mod Window
pub mod Counters
use xmc.Prelude.{
  ℕ, zero, suc, ◌+◌, ◌-◌, ◌*◌, Bool, true, false, not, ◌&&◌, ◌==◌, List, [], ◌∷◌, ◌++◌, length,
  drop, ltb, is_empty, if◌then◌else◌,
}
use xmc.Backends.{Bytes}

-- `max` 0 is unbounded, as a negative one is.
pub record CappedBuffer : Type 0 where
  pub buf : Bytes
  pub max : ℕ

-- b[len(b)-n:], for n at most len(b)
abbrev pub last_bytes : ℕ → Bytes → Bytes
last_bytes n b = drop (length b - n) b

unfoldable pub capped_write : Bytes → CappedBuffer → CappedBuffer
capped_write p c =
    let grown = c.buf ++ p in
    if ltb 0 c.max && ltb (2 * c.max) (length grown)
    then record c { buf = last_bytes c.max grown }
    else record c { buf = grown }

-- String
unfoldable pub capped_string : CappedBuffer → Bytes
capped_string c = if ltb 0 c.max && ltb c.max (length c.buf) then last_bytes c.max c.buf else c.buf

-- The fields of bgProcess that its lock guards.
pub record Output : Type 0 where
  pub out : CappedBuffer
  pub lines : ℕ
  pub stderr_seen : Bool

-- bytes.Count(b, []byte{'\n'})
abbrev pub count_newlines : Bytes → ℕ
count_newlines [] = 0
count_newlines (c ∷ b) = let rest = count_newlines b in if c == b'\n' then suc rest else rest

-- Whether Write wakes the interface.
unfoldable pub notifies : Bool → Bytes → Output → Bool
notifies stderr b o = stderr && not (is_empty b) && not o.stderr_seen

-- procWriter.Write, for the writer of stdout or of stderr
unfoldable pub proc_write : Bool → Bytes → Output → Output
unfolding capped_write notifies
proc_write stderr b o = record {
  out = capped_write b o.out;
  lines = o.lines + count_newlines b;
  stderr_seen = if notifies stderr b o then true else o.stderr_seen;
}

-- snapshotText
unfoldable pub snapshot_text : Output → Bytes
unfolding capped_string
snapshot_text o = capped_string o.out

-- One call of Write of a process's writers.
pub record Chunk : Type 0 where
  pub stderr : Bool
  pub bytes : Bytes

unfoldable pub proc_writes : List Chunk → Output → Output
unfolding proc_write
proc_writes [] o = o
proc_writes (c ∷ cs) o = proc_writes cs (proc_write c.stderr c.bytes o)

-- The lock's part of dumpProcessOutput: the user looks at the output.
unfoldable pub view_output : Output → Output
view_output o = record o { stderr_seen = false }

pub data OutputEvent : Type 0 where
  wrote : Chunk → OutputEvent
  viewed : OutputEvent

unfoldable pub run_output : List OutputEvent → Output → Output
unfolding proc_write view_output
run_output [] o = o
run_output (wrote c ∷ es) o = run_output es (proc_write c.stderr c.bytes o)
run_output (viewed ∷ es) o = run_output es (view_output o)

-- p.out.max = maxProcCapture for a new process
unfoldable pub new_output : ℕ → Output
new_output max = record { out = record { buf = []; max = max }; lines = 0; stderr_seen = false }

abbrev pub max_proc_capture : ℕ
max_proc_capture = 256 * 1024
