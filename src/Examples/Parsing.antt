-- ===== src/Examples/Parsing.antt =====
-- Parameters and streams, on short inputs.
use gb.Base.{ℕ, zero, suc, ◌≤◌, ◌≡◌, refl, ◌≢◌}
use gb.Base.{Bool, true, false, ◌&&◌, Option, none, some, [], ◌∷◌, ◌++◌, arith}
use gb.Base.{ℤ, pos, negsuc}
use gb.Base.{Result, ok}
use gb.Base.{
  Bytes, codes, bytes_eq, lower, to_lower, is_space, trim_left, trim_right, trim_space, cut,
  contains_any, has_prefix,
}
use gb.Base.{digit, digits_value, unsigned, atoi}
use gb.Header.Name.{canonical_name}
use mathlib.Core.List.{flatten}
use gb.Params.{Param, Params, get, set, del, parse}
use gb.Params.Laws.{IsParsed, parse-IsParsed}
use gb.Parser.Stream.{
  head_of, declared_length, content_length, length_line, split_lines, blank_line, found, split_one,
  frame, fed, endless, crashed, drain, feed,
}
use gb.Parser.Stream.Frames.{split_one-append}
use gb.Parser.Stream.Feeds.{feed_conserves, feed-feed, IsSane, feed_ends, negative_length}

abbrev tag_a : Params
tag_a = record { key = codes "tag"; value = codes "a"; has_value = true } ∷ []

parse_tag : parse (codes ";Tag=a") ≡ ok tag_a
unfolding gb.Params.parse gb.Params.parse_parts gb.Params.parse_part gb.Params.split_list
    gb.Params.set gb.Params.set_param gb.Params.set_flag gb.Params.unquote gb.Params.trim_semicolon
    gb.Params.is_forbidden_in_key trim_space trim_left trim_right is_space cut contains_any to_lower
    lower
parse_tag = refl

parse-IsParsed_example : IsParsed tag_a
parse-IsParsed_example = parse-IsParsed (codes ";Tag=a") parse_tag

-- A message of a head that declares one byte, and its body.
abbrev head_1 : Bytes
head_1 = codes "l:1" ++ blank_line

abbrev message_1 : Bytes
message_1 = head_1 ++ codes "x"

head_of-message : head_of message_1 ≡ some head_1
unfolding head_of has_prefix
head_of-message = refl

length-head : declared_length head_1 ≡ ok (pos 1)
unfolding declared_length content_length length_line split_lines cut canonical_name
    gb.Header.Name.long_name atoi digits_value digit unsigned trim_space trim_left trim_right
    is_space bytes_eq
length-head = refl

split-message : split_one message_1 ≡ found 8
unfolding split_one frame
split-message = rw (head_of-message, length-head, split_one) refl

split_one-append_example : (8 ≤ 8) × (split_one (message_1 ++ codes "y") ≡ found 8)
split_one-append_example = split_one-append message_1 (codes "y") split-message

-- Two messages, in two chunks that end within a message.
abbrev two_messages : Bytes
two_messages = message_1 ++ message_1

abbrev first_chunk : Bytes
first_chunk = message_1 ++ codes "l:"

abbrev second_chunk : Bytes
second_chunk = codes "1" ++ (blank_line ++ codes "x")

head_of-two : head_of two_messages ≡ some head_1
unfolding head_of has_prefix
head_of-two = refl

feed_first : feed [] first_chunk ≡ fed (codes "l:") (message_1 ∷ [])
unfolding feed drain split_one head_of has_prefix frame declared_length content_length length_line
    split_lines cut canonical_name gb.Header.Name.long_name atoi digits_value digit unsigned
    trim_space trim_left trim_right is_space bytes_eq
feed_first = refl

feed_second : feed (codes "l:") second_chunk ≡ fed [] (message_1 ∷ [])
unfolding feed drain split_one head_of has_prefix frame declared_length content_length length_line
    split_lines cut canonical_name gb.Header.Name.long_name atoi digits_value digit unsigned
    trim_space trim_left trim_right is_space bytes_eq
feed_second = refl

feed_conserves_example : flatten (message_1 ∷ []) ++ codes "l:" ≡ [] ++ first_chunk
feed_conserves_example = feed_conserves [] first_chunk feed_first

feed-feed_example : feed [] (first_chunk ++ second_chunk) ≡ fed [] (message_1 ∷ message_1 ∷ [])
feed-feed_example = feed-feed [] first_chunk second_chunk feed_first feed_second (omega arith)

-- whether the first head of each suffix declares no negative length
unfoldable sane_length : Result ℤ → Bool
sane_length (ok (negsuc m)) = false
sane_length _ = true

unfoldable sane_head : Option Bytes → Bool
unfolding sane_length
sane_head none = true
sane_head (some h) = sane_length (declared_length h)

unfoldable sane_suffixes : Bytes → Bool
sane_suffixes [] = sane_head (head_of [])
sane_suffixes (c ∷ s) = sane_head (head_of (c ∷ s)) && sane_suffixes s

sane_here :
    (o : Option Bytes) (m : ℕ) {h : Bytes}
    → sane_head o ≡ true
    → o ≡ some h
    → declared_length h ≢ ok (negsuc m)
unfolding sane_head sane_length
sane_here o m s e d = cc (rw (e, d) at s)

sane_suffixes-IsSane : (buf : Bytes) → sane_suffixes buf ≡ true → IsSane buf
unfolding sane_suffixes
sane_suffixes-IsSane [] s zero m h e = sane_here (head_of []) m s e
sane_suffixes-IsSane [] s (suc k) m h e = sane_here (head_of []) m s e
sane_suffixes-IsSane (c ∷ t) s zero m h e = sane_here (head_of (c ∷ t)) m (ground arith) e
sane_suffixes-IsSane (c ∷ t) s (suc k) m h e = sane_suffixes-IsSane t (ground arith) k m h e

message-sane : sane_suffixes message_1 ≡ true
unfolding sane_suffixes sane_head sane_length head_of has_prefix declared_length content_length
    length_line split_lines cut canonical_name gb.Header.Name.long_name atoi digits_value digit
    unsigned trim_space trim_left trim_right is_space bytes_eq
message-sane = refl

feed_ends_example : (feed [] message_1 ≢ endless) × (feed [] message_1 ≢ crashed)
feed_ends_example = feed_ends [] message_1 (sane_suffixes-IsSane message_1 message-sane)

-- a head of eight bytes that declares -8
abbrev head_minus_8 : Bytes
head_minus_8 = codes "l:-8" ++ blank_line

head_of-minus : head_of head_minus_8 ≡ some head_minus_8
unfolding head_of has_prefix
head_of-minus = refl

length-minus : declared_length head_minus_8 ≡ ok (negsuc 7)
unfolding declared_length content_length length_line split_lines cut canonical_name
    gb.Header.Name.long_name atoi digits_value digit unsigned trim_space trim_left trim_right
    is_space bytes_eq
length-minus = refl

negative_length_example : drain 1000 head_minus_8 ≡ endless
negative_length_example =
    negative_length head_minus_8 head_minus_8 7 head_of-minus length-minus (omega arith) 999
