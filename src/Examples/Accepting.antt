-- ===== src/Examples/Accepting.antt =====
-- A response as ParseMessage reads it.
use gb.Base.{◌≡◌, refl}
use gb.Base.{[], ◌∷◌, ◌++◌}
use gb.Base.{pos}
use gb.Base.{ok}
use gb.Base.{
  Bytes, codes, bytes_eq, lower, upper, to_lower, to_upper, is_space, trim_left, trim_right,
  trim_space, cut, cut_last, break_at, contains_any, has_prefix, split, fields, join,
}
use gb.Base.{digit, digits_value, parse_uint32, unsigned, atoi}
use gb.Uri.{Uri}
use gb.Header.Address.{Address, NameAddrList}
use gb.Header.Via.{Via}
use gb.Header.Fields.{
  CSeq, Header, generic_header, via_header, cseq_header, length_header, forwards_header,
  addr_header, list_header, token_header, auth_header, name, value, parse_cseq,
  parse_content_length, parse_tokens,
}
use gb.Header.Name.{canonical_name}
use gb.Headers.{Headers}
use gb.Headers
use gb.Message
use gb.Message.{
  Method, Request, Response, Message, request, response, Addr, new_request, new_response,
}
use gb.Parser.{parse_message}
use gb.Parser.Accepts.{IsAccepted, parse_message-IsAccepted}
use gb.Parser
use gb.Parser.Block
use gb.Header.Via
use gb.Uri

abbrev line_end : Bytes
line_end = 13 ∷ 10 ∷ []

abbrev ringing_text : Bytes
ringing_text =
    codes "SIP/2.0 180 R"
    ++ (line_end
        ++ (codes "v:U h"
            ++ (line_end
                ++ (codes "f:x"
                    ++ (line_end
                        ++ (codes "t:y"
                            ++ (line_end
                                ++ (codes "i:c"
                                    ++ (line_end
                                        ++ (codes "CSeq:1 A" ++ (line_end ++ line_end)))))))))))

abbrev ringing : Response
ringing = record {
  status_code = pos 180;
  reason = codes "R";
  proto = codes "SIP/2.0";
  headers =
      via_header (record {
        proto = codes "U";
        transport = codes "U";
        host = codes "h";
        port = pos 0;
        params = [];
      })
      ∷ generic_header (codes "From") (codes "x")
      ∷ generic_header (codes "To") (codes "y")
      ∷ generic_header (codes "Call-ID") (codes "c")
      ∷ cseq_header (record { seq = 1; method = codes "A" })
      ∷ [];
  body = [];
}

ringing-parsed : parse_message ringing_text ≡ ok (response ringing)
unfolding parse_message gb.Parser.parse_lines gb.Parser.parse_response gb.Parser.parse_status
    gb.Parser.response_of gb.Parser.accept_response gb.Parser.Block.parse_header_block
    gb.Parser.Block.read_headers gb.Parser.Block.read_line gb.Parser.Block.is_bad_line
    gb.Parser.Block.is_crlf gb.Parser.Block.add_line gb.Parser.Block.add_header
    gb.Parser.Block.new_typed_header gb.Parser.Block.mem gb.Parser.Block.read_body gb.Headers.add
    gb.Headers.get canonical_name gb.Header.Name.long_name gb.Header.Name.capitalize
    gb.Header.Name.short_to_long name new_response gb.Message.validate_response gb.Message.missing
    bytes_eq to_lower lower to_upper upper trim_space trim_left trim_right is_space cut cut_last
    break_at contains_any has_prefix split fields join atoi digits_value digit unsigned parse_uint32
    parse_cseq gb.Header.Fields.parse_two gb.Header.Via.parse gb.Header.Via.parse_sent_by
    gb.Header.Via.with_params gb.Header.Via.parse_host_port gb.Header.Via.transport_of
    gb.Header.Address.parse_list gb.Header.Address.split_list gb.Header.Address.parse_all
    gb.Header.Address.parse gb.Uri.parse gb.Uri.is_control
ringing-parsed = refl

parse_message-IsAccepted_example : IsAccepted (response ringing)
parse_message-IsAccepted_example = parse_message-IsAccepted ringing_text ringing-parsed
