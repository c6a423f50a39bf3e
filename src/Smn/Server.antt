-- ===== src/Smn/Server.antt =====
-- pkg/controller/autopilot.go: the requests that SmnReceiver's handler is called with, and the
-- listener. The requests are handled one after the other.
use Prim.Native.Char.{code}
use otc_rds_operator.Prelude.{
  ℕ, zero, suc, ◌+◌, String, ◌==◌, Bool, true, false, ◌&&◌, Option, none, some, List, [], ◌∷◌, leb,
  nat_eq, if◌then◌else◌,
}
use otc_rds_operator.Cloud.{
  Env, Request, Json, null_value, other_value, object, JsonMember, null_member, other_member, text,
  listen_and_serve,
}
use otc_rds_operator.Exec.{State, Exec, Outcome, done, fail, panic, exit, waiting}
use otc_rds_operator.Flavor.{Uniq}
use otc_rds_operator.Smn.Receiver.{Subscriber, on_post}

-- How encoding/json compares the letters of a key and of a field's name: ASCII letters in either
-- case, and the two other characters that fold to an ASCII letter.
abbrev folded : ℕ → ℕ
folded c =
    if leb b'A' c && leb c b'Z'
    then c + 32
    else if nat_eq c 0x17f
    then b's'
    else if nat_eq c 0x212a
    then b'k'
    else c

-- A key names a field; the names of the fields are in lower case.
unfoldable pub is_named : String → String → Bool
is_named String.[] String.[] = true
is_named (String.◌∷◌ c key) (String.◌∷◌ d name) =
    nat_eq (folded (code c)) (code d) && is_named key name
is_named _ _ = false

abbrev pub no_subscriber : Subscriber
no_subscriber = record { subscribe_url = ""; signature = ""; topic_urn = ""; message = "" }

pub data Field : Type 0 where
  url_field signature_field topic_field message_field : Field

-- The field that a key names, of those that the handler reads.
unfoldable pub field_of : String → Option Field
unfolding is_named
field_of key =
    if is_named key "subscribe_url"
    then some url_field
    else if is_named key "signature"
    then some signature_field
    else if is_named key "topic_urn"
    then some topic_field
    else if is_named key "message"
    then some message_field
    else none

abbrev pub put_field : Option Field → String → Subscriber → Subscriber
put_field none value sub = sub
put_field (some url_field) value sub = record sub { subscribe_url = value }
put_field (some signature_field) value sub = record sub { signature = value }
put_field (some topic_field) value sub = record sub { topic_urn = value }
put_field (some message_field) value sub = record sub { message = value }

-- One member of the object. A value that is no string leaves the field as it is.
abbrev pub set_member : String → JsonMember → Subscriber → Subscriber
set_member key (text value) sub = put_field (field_of key) value sub
set_member key null_member sub = sub
set_member key other_member sub = sub

unfoldable pub set_members : List (String × JsonMember) → Subscriber → Subscriber
unfolding field_of
set_members [] sub = sub
set_members ((key, value) ∷ rest) sub = set_members rest (set_member key value sub)

-- `json.Unmarshal(req, &subscriber)`: what it leaves in the variable. Its error is only logged.
unfoldable pub decode : Option Json → Subscriber → Subscriber
unfolding set_members
decode none sub = sub
decode (some null_value) sub = sub
decode (some other_value) sub = sub
decode (some (object members)) sub = set_members members sub

-- What the handler has written to its response when it returns: the header of the content type, if
-- any, and the status, which is 200 also where none is written.
pub record Response : Type 0 where
  pub content_type : Option String
  pub status : ℕ

abbrev pub json_response : Response
json_response = record { content_type = some "application/json"; status = 200 }

-- What becomes of a request: an answer, a connection that is closed after a panic of the handler, which
-- net/http recovers, or the end of the process.
pub data Reaction : Type 0 where
  answered : Response → Reaction
  aborted : Reaction
  exited : String → Reaction

abbrev reaction_to : Outcome Unit → Reaction
reaction_to (done a) = answered json_response
reaction_to (fail e) = answered json_response
reaction_to (panic e) = aborted
reaction_to (exit e) = exited e
reaction_to waiting = aborted

-- How a run of the receiver has ended, if it has ended the process.
abbrev pub Exit : Type 0
Exit = Option String

module _ (uniq : Uniq) (E : Env) where
  -- The shared variable of the handler, and the state.
  abbrev pub Server : Type 0
  Server = Subscriber × State E

  unfoldable pub post : Subscriber → State E → Reaction × Server
  post sub s = let (r, t) = on_post uniq E sub s in (reaction_to r, (sub, t))

  -- The function given to HandleFunc.
  unfoldable pub handle : Request → Server → Reaction × Server
  unfolding decode post
  handle request (sub, s) =
      if request.method == "GET"
      then (answered json_response, (sub, s))
      else if request.method == "POST"
      then post (decode request.body sub) s
      else (answered (record { content_type = none; status = 200 }), (sub, s))

  -- Nothing is served after the end of the process.
  abbrev pub serve_on : Reaction → Server → Exit × Server → Exit × Server
  serve_on (answered r) p later = later
  serve_on aborted p later = later
  serve_on (exited e) p later = (some e, p)

  unfoldable pub serve : List Request → Server → Exit × Server
  unfolding handle
  serve [] p = (none, p)
  serve (request ∷ rest) p =
      let (x, q) = handle request p in let later = serve rest q in serve_on x q later

  -- What follows an answer of ListenAndServe: `again` is the next attempt.
  abbrev pub settle_listener :
      (Server → Exit × Server) → Option String → Exit × Server → Exit × Server
  settle_listener again err (some e, p) = (some e, p)
  settle_listener again none (none, p) = (none, p)
  settle_listener again (some e) (none, p) = again p

  -- The loop over the attempts that are left.
  unfoldable pub listen : ℕ → Server → Exit × Server
  unfolding serve
  listen zero p = (none, p)
  listen (suc retries) (sub, s) =
      let again = listen retries in
      let ((requests, err), w) = E.answer (listen_and_serve "0.0.0.0:8080") s.world in
      settle_listener again err (
        serve requests (
          sub,
          record s {
            world = w;
            trace =
                record { call = listen_and_serve "0.0.0.0:8080"; reply = (requests, err) }
                ∷ s.trace;
          },
        ))

  abbrev pub returns : Exit → Outcome Unit
  returns none = done tt
  returns (some e) = exit e

  -- SmnReceiver; if it returns, it returns nil.
  unfoldable pub smn_receiver : Exec E Unit
  unfolding listen
  smn_receiver s = let (x, (sub, t)) = listen 3 (no_subscriber, s) in (returns x, t)
