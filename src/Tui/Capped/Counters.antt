-- ===== src/Tui/Capped/Counters.antt =====
-- The counters of a process's output: its newlines, and the mark of its stderr.
use xmc.Prelude.{
  ℕ, ◌+◌, Bool, true, false, not, ◌&&◌, ◌||◌, List, [], ◌∷◌, ◌++◌, ◌≡◌, refl, sym, ap, ◌∙◌, arith,
  any, is_empty, if◌then◌else◌,
}
use xmc.Backends.{Bytes}
use xmc.Tui.Capped.{
  Output, count_newlines, notifies, proc_write, Chunk, OutputEvent, wrote, viewed, view_output,
  run_output, new_output,
}

-- Whether some bytes went to stderr.
abbrev pub stderr_bytes : Chunk → Bool
stderr_bytes c = c.stderr && not (is_empty c.bytes)

count-append : (a b : Bytes) → count_newlines (a ++ b) ≡ count_newlines a + count_newlines b
count-append [] b = omega arith
count-append (c ∷ a) b = ground (arith, count-append a b)

-- The bytes of all writes, whether they were viewed, and the writes since the last view.
abbrev pub all_written : List OutputEvent → Bytes
all_written [] = []
all_written (wrote c ∷ es) = c.bytes ++ all_written es
all_written (viewed ∷ es) = all_written es

abbrev pub since_view : List Chunk → List OutputEvent → List Chunk
since_view cs [] = cs
since_view cs (wrote c ∷ es) = since_view (cs ++ c ∷ []) es
since_view cs (viewed ∷ es) = since_view [] es

lines-run_output :
    (es : List OutputEvent) (o : Output)
    → (run_output es o).lines ≡ o.lines + count_newlines (all_written es)
unfolding run_output proc_write view_output
lines-run_output [] o = omega arith
lines-run_output (wrote c ∷ es) o =
    lines-run_output es _ ∙ ground (arith, count-append c.bytes (all_written es))
lines-run_output (viewed ∷ es) o = lines-run_output es _

seen-write :
    (e : Bool) (b : Bytes) (o : Output)
    → (proc_write e b o).stderr_seen ≡ (o.stderr_seen || (e && not (is_empty b)))
unfolding proc_write notifies
seen-write e b o = go e (is_empty b) o.stderr_seen
  where
    go : (e n s : Bool) → (if e && not n && not s then true else s) ≡ (s || (e && not n))
    go true true true = refl
    go true true false = refl
    go true false true = refl
    go true false false = refl
    go false n true = refl
    go false n false = refl

any-append :
    (cs : List Chunk) (c : Chunk)
    → any stderr_bytes (cs ++ c ∷ []) ≡ (any stderr_bytes cs || stderr_bytes c)
any-append [] c = go (stderr_bytes c)
  where
    go : (b : Bool) → (b || false) ≡ b
    go true = refl
    go false = refl
any-append (d ∷ cs) c =
    ap (λ b. stderr_bytes d || b) (any-append cs c) ∙ go (stderr_bytes d) _ (stderr_bytes c)
  where
    go : (a b e : Bool) → (a || (b || e)) ≡ ((a || b) || e)
    go true b e = refl
    go false b e = refl

seen-run_output :
    (es : List OutputEvent) (o : Output) (cs : List Chunk)
    → o.stderr_seen ≡ any stderr_bytes cs
    → (run_output es o).stderr_seen ≡ any stderr_bytes (since_view cs es)
unfolding run_output view_output
seen-run_output [] o cs h = h
seen-run_output (wrote c ∷ es) o cs h =
    seen-run_output es (proc_write c.stderr c.bytes o) (cs ++ c ∷ [])
      (seen-write c.stderr c.bytes o ∙ ap (λ b. b || stderr_bytes c) h ∙ sym (any-append cs c))
seen-run_output (viewed ∷ es) o cs h = seen-run_output es _ [] refl

-- After any writes of a new process and views of its output the newlines of all that was written
-- are counted, also of what is not kept; and the process is marked exactly when some bytes went to
-- stderr since its output was last viewed.
pub counters-run_output :
    (es : List OutputEvent) (max : ℕ)
    → ((run_output es (new_output max)).lines ≡ count_newlines (all_written es))
      × ((run_output es (new_output max)).stderr_seen ≡ any stderr_bytes (since_view [] es))
unfolding new_output
counters-run_output es max = (
  lines-run_output es (new_output max) ∙ omega arith,
  seen-run_output es (new_output max) [] refl,
)
