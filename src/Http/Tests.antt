-- ===== src/Http/Tests.antt =====
-- Runs of the parser.
use cs.Base.{true, ◌≡◌, some, refl, arith, ◌++◌}
use cs.CString.{Bytes, codes}
use cs.CString.Search.{strstr, starts_with}
use cs.Http.{parser_sizes, parse_request, complete, incomplete, end_of_headers, is_complete_request}
use cs.Http.Url.{Url, IsUrl, Fits, request_text, parse_request-url}

abbrev page : Url
page = record { host = codes "a.org"; port = some (codes "8080"); path = some (codes "x?y=1") }

abbrev page_tail : Bytes
page_tail = codes "HTTP/1.0" ++ end_of_headers

page-IsUrl : IsUrl page
page-IsUrl = record {
  host_ne = ground arith;
  host_space = omega arith;
  host_slash = omega arith;
  host_colon = omega arith;
  host_zero = omega arith;
  port_space = omega arith;
  port_slash = omega arith;
  port_zero = omega arith;
  path_space = omega arith;
  path_zero = omega arith;
}

page-Fits : Fits parser_sizes (codes "GET") page page_tail
page-Fits = record {
  request = omega arith;
  method = omega arith;
  host_port = omega arith;
  host_str = omega arith;
  hostname = omega arith;
  port = omega arith;
  uri = omega arith;
}

page_complete : is_complete_request (request_text (codes "GET") page page_tail) ≡ true
unfolding is_complete_request strstr starts_with
page_complete = refl

parse_request-url_example :
    parse_request parser_sizes (request_text (codes "GET") page page_tail)
    ≡ complete (record {
      method = codes "GET";
      hostname = codes "a.org";
      port = codes "8080";
      uri = some (codes "x?y=1");
    })
parse_request-url_example =
    parse_request-url parser_sizes (codes "GET") page page_tail page-IsUrl
      (omega arith, (omega arith, ground arith)) (omega arith) page-Fits page_complete

-- Half a request.
half_request : parse_request parser_sizes (codes "GET http://a.org/") ≡ incomplete
unfolding parse_request is_complete_request strstr starts_with
half_request = refl
