-- ===== src/Parser.antt =====
-- parser.go: ParseMessage on the bytes of one message.
pub mod Block
pub mod Stream
pub mod Accepts
use gb.Base.{ℕ}
use gb.Base.{Option, none, some, List, [], ◌∷◌}
use gb.Base.{ltb, if◌then◌else◌, get_or}
use gb.Base.{length}
use gb.Base.{ℤ}
use gb.Base.{Error, err_parse, err_short_message, err_bad_start_line}
use gb.Base.{Result, ok, err, ◌>>=◌}
use gb.Base.{Bytes, codes, to_upper, cut, has_prefix, split, fields}
use gb.Base.{atoi}
use gb.Uri.{Uri}
use gb.Message.{
  Message, request, response, Request, Response, new_request, new_response, validate_request,
  validate_response,
}
use gb.Uri
use gb.Parser.Block.{ParsedBlock, parse_header_block, read_line}

abbrev pub max_message_size : ℕ
max_message_size = 1048576

unfoldable pub accept_request : Request → Option Error → Result Message
accept_request r none = ok (request r)
accept_request r (some e) = err e

unfoldable pub accept_response : Response → Option Error → Result Message
accept_response r none = ok (response r)
accept_response r (some e) = err e

unfoldable pub request_of : Uri → Bytes → Bytes → ParsedBlock → Request
request_of uri method proto b = record (new_request (to_upper method) uri) {
  proto = proto;
  headers = b.headers;
  body = b.body;
}

-- parseRequest: the fields of the start line, and the input behind it
unfoldable pub parse_request : List Bytes → Bytes → Result Message
parse_request (method ∷ target ∷ proto ∷ []) input = elim (Uri.parse target) [
  | err e ↦ err err_bad_start_line
  | ok uri ↦ do
    block ← parse_header_block input
    let r = request_of uri method proto block
    accept_request r (validate_request r)
]
parse_request _ input = err err_bad_start_line

unfoldable pub response_of : ℤ → Bytes → Bytes → ParsedBlock → Response
response_of code reason proto b = record (new_response code reason) {
  proto = proto;
  headers = b.headers;
  body = b.body;
}

unfoldable pub parse_status : Bytes → Option ℤ → Bytes → Bytes → Result Message
parse_status proto none reason input = err err_bad_start_line
parse_status proto (some code) reason input = do
  block ← parse_header_block input
  let r = response_of code reason proto block
  accept_response r (validate_response r)

-- parseResponse: the start line is split at its first two spaces
unfoldable pub parse_response : Bytes → Bytes → Result Message
parse_response line input = elim (cut b' ' line) [
  | none ↦ err err_bad_start_line
  | some p ↦
      let rest = get_or (cut b' ' p.1) (p.1, []) in parse_status p.0 (atoi rest.0) rest.1 input
]

unfoldable pub parse_lines : Bytes → Bytes → Result Message
parse_lines [] input = err err_bad_start_line
parse_lines (c ∷ line) input =
    if has_prefix (codes "SIP/") (c ∷ line)
    then parse_response (c ∷ line) input
    else parse_request (fields (c ∷ line)) input

-- ParseMessage; the input has 8 bytes at least, so the first line is read.
unfoldable pub parse_message : Bytes → Result Message
parse_message input =
    if ltb (length input) 8
    then err err_short_message
    else if ltb max_message_size (length input)
    then err err_parse
    else elim (read_line input) [ none ↦ err err_bad_start_line | some l ↦ parse_lines l.0 l.1 ]
