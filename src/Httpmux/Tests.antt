-- ===== src/Httpmux/Tests.antt =====
-- A request in the clear and the start of a TLS handshake.
use smart_web.Base.{◌≡◌, refl, codes, Bytes}
use smart_web.Httpmux.{
  Incoming, timed_out, plain, tls, dispatch_connection, dispatch, choose, is_http, is_text,
  burst_of,
}
use smart_web.Httpmux.Dispatch.{Serves, dispatch_connection-Serves}

abbrev incoming : Bytes → Incoming
incoming s = record { sent = s; first_error = codes "EOF"; ready = 2; second_end = timed_out }

request_is_plain :
    dispatch_connection (incoming (codes "GET / HTTP/1.1"))
    ≡ plain (record { buffered = codes "GET"; unread = codes " / HTTP/1.1" })
unfolding dispatch_connection dispatch choose is_http is_text burst_of
request_is_plain = refl

-- the line break is no text
line_break_is_tls :
    dispatch_connection (incoming (codes "A\r\nB"))
    ≡ tls (record { buffered = codes "A\r\n"; unread = codes "B" })
unfolding dispatch_connection dispatch choose is_http is_text burst_of
line_break_is_tls = refl

dispatch_connection-Serves_example :
    Serves
      (incoming (codes "GET / HTTP/1.1"))
      (dispatch_connection (incoming (codes "GET / HTTP/1.1")))
dispatch_connection-Serves_example = dispatch_connection-Serves (incoming (codes "GET / HTTP/1.1"))
