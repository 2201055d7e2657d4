-- ===== src/Server2/Keygen.antt =====
-- server2/keygen.go: which requests for a key are answered, and the form.
use smart_web.Base.{[], ◌∷◌, ◌++◌, Option, some, Bytes, codes, equal, if◌then◌else◌}
use smart_web.Server2.Response.{Response}

abbrev pub keygen_form : Bytes
keygen_form =
    codes "\n<!DOCTYPE html>\n<html>\n\t<body>\n"
    ++ codes "\t\t<form action=\"?keygen\" method=\"post\">\n"
    ++ codes "\t\t\t<input type=\"input\" name=\"name\" placeholder=\"Common Name\" />\n"
    ++ codes "\t\t\t<keygen name=\"key\" challenge=\"c h a ll e n g e/strin g\">\n"
    ++ codes "\t\t\tvalid\n"
    ++ codes "\t\t\t<input type=\"number\" name=\"days\" value=\"365\" />\n"
    ++ codes "\t\t\tdays\n"
    ++ codes "\t\t\t<input type=\"submit\">\n"
    ++ codes "\t\t</form>\n\t</body>\n</html>"

-- `handleGETKeygen`
abbrev pub form_response : Response
form_response = record {
  status = 200;
  headers = (codes "Content-Type", codes "text/html; charset=utf-8") ∷ [];
  body = keygen_form;
}

-- `handleKeygen`, with the response to the form that is sent, or none for a panic
unfoldable pub handle_keygen : Bytes → Option Response → Option Response
handle_keygen method posted =
    if equal method (codes "GET")
    then some form_response
    else if equal method (codes "POST")
    then posted
    else some (record { status = 405; headers = []; body = [] })
