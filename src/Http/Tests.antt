-- ===== src/Http/Tests.antt =====
-- Runs of src/http_parser.c, and its theorems at such requests.
use vek.Prelude.{◌≡◌, refl, some, [], ◌∷◌, ◌++◌, Bytes, bytes_eq, true, pos, arith, ◌≢◌}
use vek.Lexer.Keywords.{codes}
use vek.Http.Framing.{IsFramed, http_parse_request-IsFramed}
use vek.Http.Stable.{http_parse_request-append}
use vek.Http.Fuel.{http_parse_request-ends}
use vek.Http.Content.{content_digits-decimal}
use vek.Http.{
  HttpParseResult, HttpRequest, ok, parse_method, find_crlf, find_header_end, memchr, skip_spaces,
  strncasecmp_eq, http_post, running,
}
use vek.Http.Lines.{parse_request_line, parse_headers, parse_version}
use vek.Http.Request.{http_parse_request, content_digits, content_loop, finish_request}

abbrev crlf : Bytes
crlf = b'\r' ∷ b'\n' ∷ []

abbrev message : Bytes
message =
    codes "POST /a?b=1 HTTP/1.1"
    ++ crlf
    ++ codes "Host: x"
    ++ crlf
    ++ codes "content-LENGTH:  2"
    ++ crlf
    ++ crlf
    ++ codes "okGET"

run : Bytes → HttpParseResult HttpRequest
unfolding http_parse_request parse_request_line parse_headers parse_version parse_method find_crlf
    find_header_end memchr skip_spaces content_digits content_loop finish_request strncasecmp_eq
    bytes_eq
run buf = http_parse_request 20 buf

run-message :
    run message
    ≡ ok (record {
      method = http_post;
      method_str = codes "POST";
      path = codes "/a";
      query_string = some (codes "b=1");
      version_major = pos 1;
      version_minor = pos 1;
      headers =
          record { name = codes "Host"; value = codes "x" }
          ∷ record { name = codes "content-LENGTH"; value = codes "2" }
          ∷ [];
      body = some (codes "ok");
      content_length = 2;
      keep_alive = true;
      bytes_consumed = 55;
    })
unfolding run
run-message = refl

http_parse_request-IsFramed_example : IsFramed message (record {
  method = http_post;
  method_str = codes "POST";
  path = codes "/a";
  query_string = some (codes "b=1");
  version_major = pos 1;
  version_minor = pos 1;
  headers =
      record { name = codes "Host"; value = codes "x" }
      ∷ record { name = codes "content-LENGTH"; value = codes "2" }
      ∷ [];
  body = some (codes "ok");
  content_length = 2;
  keep_alive = true;
  bytes_consumed = 55;
})
unfolding run
http_parse_request-IsFramed_example = http_parse_request-IsFramed 20 message _ run-message

http_parse_request-ends_example : http_parse_request 59 message ≢ running
http_parse_request-ends_example = http_parse_request-ends 59 message (omega arith)

content_digits-decimal_example : content_digits (codes "18446744073709551618") 0 ≡ 2
content_digits-decimal_example = content_digits-decimal (codes "18446744073709551618")

http_parse_request-append_example :
    http_parse_request 20 (message ++ codes " /next")
    ≡ ok (record {
      method = http_post;
      method_str = codes "POST";
      path = codes "/a";
      query_string = some (codes "b=1");
      version_major = pos 1;
      version_minor = pos 1;
      headers =
          record { name = codes "Host"; value = codes "x" }
          ∷ record { name = codes "content-LENGTH"; value = codes "2" }
          ∷ [];
      body = some (codes "ok");
      content_length = 2;
      keep_alive = true;
      bytes_consumed = 55;
    })
unfolding run
http_parse_request-append_example =
    http_parse_request-append 20 message (codes " /next") _ run-message
