-- ===== src/Mcp/Transport.antt =====
-- The transports of mcp/server.go: ServeStdio and the POST handler of Streamable HTTP. What the
-- select of ServeStdio takes next is a list of inputs; the reader, the writer and the HTTP server
-- are Go's.
use xmc.Prelude.{
  ℕ, ◌*◌, All, suc, Bool, true, arith, take, codes, refl, ap, ◌||◌, ◌==◌, Option, none, some, List,
  [], ◌∷◌, ◌++◌, append_assoc, append-nil, ◌≡◌, is_empty, if◌then◌else◌, Bool-cases, inl, inr,
}
use xmc.Errors.{GoError}
use xmc.Backends.{Bytes}
use xmc.Mcp.{Codec, Server, handle}

pub data Input : Type 0 where
  context_done : Input
  scan_error : GoError → Input
  line : Bytes → Input
  closed : Input

-- ServeStdio has returned, or waits for input, and has written these lines.
pub data Served : Type 0 where
  served : Option GoError → List Bytes → Served
  waiting : List Bytes → Served

abbrev pub is_newline : ℕ → Bool
is_newline c = c == b'\n' || c == b'\r'

abbrev keep_unless_last : ℕ → Bytes → Bytes
keep_unless_last c [] = if is_newline c then [] else c ∷ []
keep_unless_last c (d ∷ s) = c ∷ d ∷ s

unfoldable pub trim_newline : Bytes → Bytes
trim_newline [] = []
trim_newline (c ∷ s) = keep_unless_last c (trim_newline s)

-- What the reader's goroutine hands on of the reads of ReadBytes: each line trimmed, unless nothing
-- is left of it.
unfoldable pub read_lines : List Bytes → List Bytes
unfolding trim_newline
read_lines [] = []
read_lines (b ∷ bs) =
    let rest = read_lines bs in if is_empty (trim_newline b) then rest else trim_newline b ∷ rest

module _ (codec : Codec) (s : Server) (flush : List Bytes → Option GoError) where
  abbrev pub after_flush : Served → List Bytes → Option GoError → Served
  after_flush next written none = next
  after_flush next written (some e) = served (some e) written

  -- The loop; the message's number is the moment of its call.
  unfoldable pub serve_stdio : List Input → ℕ → List Bytes → Served
  unfolding handle
  serve_stdio [] now written = waiting written
  serve_stdio (context_done ∷ rest) now written = served none written
  serve_stdio (scan_error e ∷ rest) now written = served (some e) written
  serve_stdio (closed ∷ rest) now written = served none written
  serve_stdio (line b ∷ rest) now written =
      let (resp, notification) = handle codec s now b in
      let silent : Served = serve_stdio rest (suc now) written in
      let answered : Served =
        after_flush (serve_stdio rest (suc now) (written ++ resp ∷ [])) (written ++ resp ∷ [])
          (flush (written ++ resp ∷ [])) in
      if notification || is_empty resp then silent else answered

-- The limit of io.LimitReader
abbrev pub max_body : ℕ
max_body = 32 * 1024 * 1024

-- The status and the body. None is a body that cannot be read; the text is that of http.Error,
-- which ends it with a newline.
unfoldable pub serve_http_message : Codec → Server → ℕ → Option Bytes → ℕ × Bytes
unfolding handle
serve_http_message codec s now none = (400, codes "failed to read request body\n")
serve_http_message codec s now (some body) =
    let (resp, notification) = handle codec s now (take max_body body) in
    if notification || is_empty resp then (202, []) else (200, resp)

-- The line that a message is answered with, if it is.
abbrev pub answer : Codec → Server → ℕ → Bytes → List Bytes
answer codec s now b =
    if (handle codec s now b).1 || is_empty (handle codec s now b).0
    then []
    else (handle codec s now b).0 ∷ []

abbrev pub answers : Codec → Server → ℕ → List Bytes → List Bytes
answers codec s now [] = []
answers codec s now (b ∷ bs) = answer codec s now b ++ answers codec s (suc now) bs

-- What ServeStdio returns for an input that is no line.
abbrev pub end_error : Input → Option (Option GoError)
end_error context_done = some none
end_error (scan_error e) = some (some e)
end_error (line b) = none
end_error closed = some none

-- The lines, and then that input.
abbrev pub lines_then : List Bytes → Input → List Input
lines_then [] end = end ∷ []
lines_then (b ∷ bs) end = line b ∷ lines_then bs end

-- The messages of the input: its lines without their newline characters, the empty ones left out.
abbrev pub not_empty : Bytes → List Bytes
not_empty [] = []
not_empty (c ∷ b) = (c ∷ b) ∷ []

abbrev pub messages : List Bytes → List Bytes
messages [] = []
messages (b ∷ bs) = not_empty (trim_newline b) ++ messages bs

read_lines_lem : (raws : List Bytes) → read_lines raws ≡ messages raws
unfolding read_lines
read_lines_lem [] = refl
read_lines_lem (b ∷ raws) = go (trim_newline b) (read_lines_lem raws)
  where
    go :
        (l : Bytes)
        → read_lines raws ≡ messages raws
        → (if is_empty l then read_lines raws else l ∷ read_lines raws)
          ≡ not_empty l ++ messages raws
    go [] h = h
    go (c ∷ l) h = ap (λ ls. (c ∷ l) ∷ ls) h

serve_stdio-end :
    (codec : Codec) (s : Server) (now : ℕ) (end : Input) (r : Option GoError) (written : List Bytes)
    → end_error end ≡ some r
    → serve_stdio codec s (λ w. none) (end ∷ []) now written ≡ served r written
unfolding serve_stdio
serve_stdio-end codec s now context_done r written h = ground arith
serve_stdio-end codec s now (scan_error e) r written h = ground arith
serve_stdio-end codec s now (line b) r written h = cc
serve_stdio-end codec s now closed r written h = ground arith

serve_stdio-from :
    (codec : Codec) (s : Server) (now : ℕ) (bs : List Bytes) (end : Input) (r : Option GoError)
    (written : List Bytes)
    → end_error end ≡ some r
    → serve_stdio codec s (λ w. none) (lines_then bs end) now written
      ≡ served r (written ++ answers codec s now bs)
unfolding serve_stdio
serve_stdio-from codec s now [] end r written h =
    rw append-nil (serve_stdio-end codec s now end r written h)
serve_stdio-from codec s now (b ∷ bs) end r written h =
    elim (Bool-cases ((handle codec s now b).1 || is_empty (handle codec s now b).0)) [
      | inl silent ↦ rw silent (serve_stdio-from codec s (suc now) bs end r written h)
      | inr answered ↦ rw (
        answered,
        serve_stdio-from codec s (suc now) bs end r (written ++ (handle codec s now b).0 ∷ []) h,
        append_assoc,
      )
    ]

-- Over stdio, while the writer does not fail, the messages of the input up to its end are answered
-- in order, each by at most one line; empty lines are left out. Then the server returns the error of
-- the reader, or none at the end of the input or of its context.
pub serve_stdio-answers :
    (codec : Codec) (s : Server) (raws : List Bytes) (end : Input) (r : Option GoError)
    → end_error end ≡ some r
    → serve_stdio codec s (λ w. none) (lines_then (read_lines raws) end) 0 []
      ≡ served r (answers codec s 0 (messages raws))
serve_stdio-answers codec s raws end r h =
    rw (read_lines_lem raws) (serve_stdio-from codec s 0 (messages raws) end r [] h)

keep_unless_last-parts :
    (c : ℕ) (u rest s : Bytes)
    → u ++ rest ≡ s
    → All (λ d. is_newline d ≡ true) rest
    → (r : Bytes) × (keep_unless_last c u ++ r ≡ c ∷ s) × All (λ d. is_newline d ≡ true) r
keep_unless_last-parts c (d ∷ u) rest s e a = (rest, ap (λ l. c ∷ l) e, a)
keep_unless_last-parts c [] rest s e a = elim (Bool-cases (is_newline c)) [
  | inl new ↦ (c ∷ rest, simp new (ap (λ l. c ∷ l) e), (new, a))
  | inr text ↦ (rest, simp text (ap (λ l. c ∷ l) e), a)
]

trim_newline-parts :
    (b : Bytes) → (r : Bytes) × (trim_newline b ++ r ≡ b) × All (λ d. is_newline d ≡ true) r
unfolding trim_newline
trim_newline-parts [] = ([], refl, tt)
trim_newline-parts (c ∷ s) =
    let (r, e, a) = trim_newline-parts s in keep_unless_last-parts c (trim_newline s) r s e a

trim_newline-keep :
    (c : ℕ) (u : Bytes)
    → trim_newline u ≡ u
    → trim_newline (keep_unless_last c u) ≡ keep_unless_last c u
unfolding trim_newline
trim_newline-keep c (d ∷ u) e = rw e refl
trim_newline-keep c [] e = elim (Bool-cases (is_newline c)) [
  | inl new ↦ simp new
  | inr text ↦ simp text
]

trim_newline_idem : (b : Bytes) → trim_newline (trim_newline b) ≡ trim_newline b
unfolding trim_newline
trim_newline_idem [] = refl
trim_newline_idem (c ∷ s) = trim_newline-keep c (trim_newline s) (trim_newline_idem s)

-- A line is the trimmed message followed by newline characters alone, and trimming the message
-- again changes nothing.
pub trim_newline_exact :
    (b : Bytes)
    → ((r : Bytes) × (trim_newline b ++ r ≡ b) × All (λ d. is_newline d ≡ true) r)
      × (trim_newline (trim_newline b) ≡ trim_newline b)
trim_newline_exact b = (trim_newline-parts b, trim_newline_idem b)
