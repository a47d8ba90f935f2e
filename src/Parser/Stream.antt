-- ===== src/Parser/Stream.antt =====
-- parser.go: StreamSplitter, which cuts the bytes of a TCP connection into messages.
pub mod Frames
pub mod Chunks
pub mod Feeds
use gb.Base.{ℕ, zero, suc, ◌+◌, ◌-◌}
use gb.Base.{true, false, ◌&&◌, Option, none, some, List, [], ◌∷◌, ◌++◌}
use gb.Base.{ltb, ◌==◌, if◌then◌else◌}
use gb.Base.{length, take, drop}
use gb.Base.{ℤ, pos, negsuc}
use gb.Base.{err_parse}
use gb.Base.{Result, ok, err}
use gb.Base.{Bytes, codes, bytes_eq, trim_space, cut, has_prefix, push_head}
use gb.Base.{atoi}
use gb.Header.Name.{canonical_name}

abbrev pub max_message_size : ℕ
max_message_size = 1048576

abbrev pub max_body_size : ℕ
max_body_size = 65536

abbrev pub blank_line : Bytes
blank_line = 13 ∷ 10 ∷ 13 ∷ 10 ∷ []

-- `data[:i+4]` at the first blank line
unfoldable pub head_of : Bytes → Option Bytes
head_of [] = none
head_of (c ∷ s) = elim (has_prefix blank_line (c ∷ s)) [
  | true ↦ some blank_line
  | false ↦ elim (head_of s) [ none ↦ none | some h ↦ some (c ∷ h) ]
]

-- strings.Split(head, "\r\n")
unfoldable pub split_lines : Bytes → List Bytes
split_lines [] = [] ∷ []
split_lines (c ∷ []) = (c ∷ []) ∷ []
split_lines (c ∷ d ∷ s) =
    let ended = [] ∷ split_lines s in
    let longer = push_head c (split_lines (d ∷ s)) in if c == 13 && d == 10 then ended else longer

-- one line of the head: the new value of `cl`
unfoldable pub length_line : ℤ → Option (Bytes × Bytes) → Result ℤ
length_line cl none = ok cl
length_line cl (some p) =
    if bytes_eq (canonical_name p.0) (codes "Content-Length")
    then elim (atoi (trim_space p.1)) [ none ↦ err err_parse | some n ↦ ok n ]
    else ok cl

-- the loop over the lines of the head; the last Content-Length counts
unfoldable pub content_length : ℤ → List Bytes → Result ℤ
content_length cl [] = ok cl
content_length cl (line ∷ lines) = elim (length_line cl (cut b':' line)) [
  | err e ↦ err e
  | ok cl' ↦ content_length cl' lines
]

-- splitOne: `found total` for `data[:total]`, `data[total:]`. The slice panics at a negative total.
pub data Split : Type 0 where
  incomplete bad panics : Split
  found : ℕ → Split

-- `total := i + 4 + cl`, with the tests behind it
unfoldable pub frame : ℕ → ℕ → Result ℤ → Split
frame available head (err e) = bad
frame available head (ok (pos cl)) =
    if ltb max_body_size cl
    then bad
    else if ltb available (head + cl)
    then incomplete
    else found (head + cl)
frame available head (ok (negsuc m)) =
    if ltb head (suc m)
    then panics
    else if ltb available (head - suc m)
    then incomplete
    else found (head - suc m)

unfoldable pub declared_length : Bytes → Result ℤ
declared_length head = content_length (pos 0) (split_lines head)

unfoldable pub split_one : Bytes → Split
split_one input = elim (head_of input) [
  | none ↦ incomplete
  | some head ↦ frame (length input) (length head) (declared_length head)
]

-- What Feed leaves and returns: the buffer and the messages, with or without an error. `crashed`
-- is a panic, and `endless` means that the rounds given did not end the loop.
pub data Feed : Type 0 where
  fed : Bytes → List Bytes → Feed
  failed : Bytes → List Bytes → Feed
  crashed endless : Feed

abbrev pub emit : Bytes → Feed → Feed
emit m (fed buf ms) = fed buf (m ∷ ms)
emit m (failed buf ms) = failed buf (m ∷ ms)
emit m crashed = crashed
emit m endless = endless

-- the loop of Feed
unfoldable pub drain : ℕ → Bytes → Feed
drain zero buf = endless
drain (suc fuel) buf = elim (split_one buf) [
  | incomplete ↦ fed buf []
  | bad ↦ failed buf []
  | panics ↦ crashed
  | found n ↦ emit (take n buf) (drain fuel (drop n buf))
]

-- (*StreamSplitter).Feed: too long a buffer is dropped. Each round but the last takes a byte at
-- least, unless a length is negative.
unfoldable pub feed : Bytes → Bytes → Feed
feed buf input =
    if ltb max_message_size (length buf + length input)
    then failed [] []
    else drain (suc (length (buf ++ input))) (buf ++ input)
