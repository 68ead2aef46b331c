-- ===== src/Http/Response/Tests.antt =====
-- Runs of responses, and the theorem about them at one of these.
use kenojs.Prelude.{◌≡◌, refl, true, false, none, some, List, [], ◌∷◌, length}
use kenojs.Prelude.Maps.{get, set}
use kenojs.Prelude.Text.{codes}
use kenojs.Http.Response.{
  Response, Texts, number, several, text_content_type, text_payload, set_header, set_default,
  append, end_raw, send_raw, send_text, redirect, json, Call, sets, sends_text, appends, sends_json,
  call, calls,
}
use kenojs.Http.Response.Heads.{without_body, calls_of_head}

abbrev fresh : Response
fresh = record {
  status_code = 200;
  headers = [];
  headers_sent = false;
  writable_ended = false;
  destroyed = false;
  body = none;
  late_write = false;
}

abbrev texts : Texts
texts = record {
  status_message = λ n. codes "Found";
  byte_length = λ t. length t;
  show = λ n. codes "302";
  encode = λ t. t;
}

computed : Unit {0}
unfolding get set set_header set_default append end_raw send_raw send_text redirect json call calls
computed = tt

abbrev handler : List Call
handler =
    appends (codes "Vary") (codes "a" ∷ [])
    ∷ appends (codes "vary") (codes "b" ∷ [])
    ∷ sends_text (codes "hi")
    ∷ []

answered : calls texts false handler fresh ≡ record {
  status_code = 200;
  headers =
      (codes "vary", several (codes "a" ∷ codes "b" ∷ []))
      ∷ (codes "content-type", text_content_type)
      ∷ (codes "content-length", number 2)
      ∷ [];
  headers_sent = true;
  writable_ended = true;
  destroyed = false;
  body = some (text_payload (codes "hi"));
  late_write = false;
}
unfolding computed
answered = refl

-- A second answer is not sent.
answered_twice :
    (calls texts false (sends_text (codes "hi") ∷ sends_json none ∷ []) fresh).body
    ≡ some (text_payload (codes "hi"))
unfolding computed
answered_twice = refl

-- Once the headers are sent no header can be set.
set_late :
    call texts false (sets (codes "a") (codes "b")) (record fresh { headers_sent = true }) ≡ none
unfolding computed
set_late = refl

calls_of_head_example :
    calls texts true handler (without_body fresh) ≡ without_body (calls texts false handler fresh)
calls_of_head_example = calls_of_head texts handler fresh
