-- ===== src/Smn/Shared.antt =====
-- pkg/controller/autopilot.go: the variable of SmnReceiver that all requests share.
use otc_rds_operator.Prelude.{
  String, ◌==◌, ◌≡◌, ◌⊎◌, inl, inr, refl, sym, ap, ◌∙◌, Bool, true, false, Option, none, some, List,
  [], ◌∷◌, All, if◌then◌else◌,
}
use otc_rds_operator.Cloud.{
  Env, Request, Json, null_value, other_value, object, JsonMember, null_member, other_member, text,
}
use otc_rds_operator.Exec.{State}
use otc_rds_operator.Flavor.{Uniq}
use otc_rds_operator.Smn.Receiver.{Subscriber}
use otc_rds_operator.Smn.Server.{
  serve_on, Field, url_field, signature_field, topic_field, message_field, field_of, put_field,
  set_member, set_members, decode, post, handle, serve,
}

abbrev pub get_field : Field → Subscriber → String
get_field url_field sub = sub.subscribe_url
get_field signature_field sub = sub.signature
get_field topic_field sub = sub.topic_urn
get_field message_field sub = sub.message

abbrev same_field : Field → Field → Bool
same_field url_field url_field = true
same_field signature_field signature_field = true
same_field topic_field topic_field = true
same_field message_field message_field = true
same_field _ _ = false

-- The value of a field after a member.
abbrev updated : Field → Option Field → JsonMember → String → String
updated f (some g) (text v) d = if same_field f g then v else d
updated f none (text v) d = d
updated f o null_member d = d
updated f o other_member d = d

-- The value that the members give a field, the last one first; `d` if none does.
pub last_value : Field → List (String × JsonMember) → String → String
last_value f [] d = d
last_value f ((key, m) ∷ ms) d = last_value f ms (updated f (field_of key) m d)

get_field-put_field :
    (f : Field) (o : Option Field) (v : String) (sub : Subscriber)
    → get_field f (put_field o v sub) ≡ updated f o (text v) (get_field f sub)
get_field-put_field url_field (some url_field) v sub = refl
get_field-put_field signature_field (some url_field) v sub = refl
get_field-put_field topic_field (some url_field) v sub = refl
get_field-put_field message_field (some url_field) v sub = refl
get_field-put_field f o v sub = refl

get_field-set_member :
    (f : Field) (key : String) (m : JsonMember) (sub : Subscriber)
    → get_field f (set_member key m sub) ≡ updated f (field_of key) m (get_field f sub)
get_field-set_member f key (text v) sub = get_field-put_field f (field_of key) v sub
get_field-set_member f key null_member sub = refl
get_field-set_member f key other_member sub = refl

-- Each field takes the last value that the members give it.
get_field-set_members :
    (f : Field) (ms : List (String × JsonMember)) (sub : Subscriber)
    → get_field f (set_members ms sub) ≡ last_value f ms (get_field f sub)
unfolding set_members last_value
get_field-set_members f [] sub = refl
get_field-set_members f ((key, m) ∷ ms) sub =
    get_field-set_members f ms (set_member key m sub)
    ∙ ap (last_value f ms) (get_field-set_member f key m sub)

-- A member either sets a field or leaves it.
sets_or_leaves :
    (f : Field) (o : Option Field) (m : JsonMember)
    → ((v : String) × ((d : String) → updated f o m d ≡ v)) ⊎ ((d : String) → updated f o m d ≡ d)
sets_or_leaves f (some g) (text v) = go (same_field f g)
  where
    go :
        (b : Bool)
        → ((w : String) × ((d : String) → (if b then v else d) ≡ w))
          ⊎ ((d : String) → (if b then v else d) ≡ d)
    go true = inl (v, λ d. refl)
    go false = inr (λ d. refl)
sets_or_leaves f none (text v) = inr (λ d. refl)
sets_or_leaves f o null_member = inr (λ d. refl)
sets_or_leaves f o other_member = inr (λ d. refl)

-- What one of the two does behind a member.
after_member :
    (f : Field) (key : String) (m : JsonMember) (ms : List (String × JsonMember))
    → ((v : String) × ((e : String) → last_value f ms e ≡ v))
      ⊎ ((e : String) → last_value f ms e ≡ e)
    → ((v : String) × ((e : String) → last_value f ((key, m) ∷ ms) e ≡ v))
      ⊎ ((e : String) → last_value f ((key, m) ∷ ms) e ≡ e)
unfolding last_value
after_member f key m ms (inl (v, const)) = inl (v, λ e. const (updated f (field_of key) m e))
after_member f key m ms (inr same) = elim (sets_or_leaves f (field_of key) m) [
  | inl (v, sets) ↦ inl (v, λ e. same (updated f (field_of key) m e) ∙ sets e)
  | inr leaves ↦ inr (λ e. same (updated f (field_of key) m e) ∙ leaves e)
]

-- The members of an object give a field one value, whatever it was, or leave it.
last_value-cases :
    (f : Field) (ms : List (String × JsonMember))
    → ((v : String) × ((e : String) → last_value f ms e ≡ v))
      ⊎ ((e : String) → last_value f ms e ≡ e)
last_value-cases f [] = inr (unfold last_value in λ e. refl)
last_value-cases f ((key, m) ∷ ms) = after_member f key m ms (last_value-cases f ms)

last_value_idem :
    (f : Field) (ms : List (String × JsonMember)) (d : String)
    → last_value f ms (last_value f ms d) ≡ last_value f ms d
last_value_idem f ms d = elim (last_value-cases f ms) [
  | inl (v, const) ↦ const (last_value f ms d) ∙ sym (const d)
  | inr same ↦ same (last_value f ms d)
]

subscriber_path : (a b : Subscriber) → ((f : Field) → get_field f a ≡ get_field f b) → a ≡ b
subscriber_path a b h = λ i. record {
  subscribe_url = h url_field i;
  signature = h signature_field i;
  topic_urn = h topic_field i;
  message = h message_field i;
}

set_members_idem :
    (ms : List (String × JsonMember)) (sub : Subscriber)
    → set_members ms (set_members ms sub) ≡ set_members ms sub
set_members_idem ms sub =
    subscriber_path (set_members ms (set_members ms sub)) (set_members ms sub) λ f.
      get_field-set_members f ms (set_members ms sub)
      ∙ ap (last_value f ms) (get_field-set_members f ms sub)
      ∙ last_value_idem f ms (get_field f sub)
      ∙ sym (get_field-set_members f ms sub)

decode_idem : (b : Option Json) (sub : Subscriber) → decode b (decode b sub) ≡ decode b sub
unfolding decode
decode_idem none sub = refl
decode_idem (some null_value) sub = refl
decode_idem (some other_value) sub = refl
decode_idem (some (object ms)) sub = set_members_idem ms sub

-- A body that gives no value to any of the fields.
abbrev IsOther : String × JsonMember → Type 0
IsOther (key, text v) = field_of key ≡ none
IsOther (key, null_member) = Unit
IsOther (key, other_member) = Unit

abbrev pub IsSilent : Option Json → Type 0
IsSilent (some (object ms)) = All IsOther ms
IsSilent _ = Unit

set_member-IsOther :
    (key : String) (m : JsonMember) (sub : Subscriber)
    → IsOther (key, m)
    → set_member key m sub ≡ sub
set_member-IsOther key (text v) sub h = rw h refl
set_member-IsOther key null_member sub h = refl
set_member-IsOther key other_member sub h = refl

set_members-IsOther :
    (ms : List (String × JsonMember)) (sub : Subscriber) → All IsOther ms → set_members ms sub ≡ sub
unfolding set_members
set_members-IsOther [] sub h = refl
set_members-IsOther ((key, m) ∷ ms) sub (now, later) =
    ap (set_members ms) (set_member-IsOther key m sub now) ∙ set_members-IsOther ms sub later

decode-IsSilent : (b : Option Json) (sub : Subscriber) → IsSilent b → decode b sub ≡ sub
unfolding decode
decode-IsSilent none sub h = refl
decode-IsSilent (some null_value) sub h = refl
decode-IsSilent (some other_value) sub h = refl
decode-IsSilent (some (object ms)) sub h = set_members-IsOther ms sub h

module _ (uniq : Uniq) (E : Env) where
  abbrev pub IsPost : Request → Type 0
  IsPost request = ((request.method == "GET") ≡ false) × ((request.method == "POST") ≡ true)

  handle-post :
      (request : Request) (sub : Subscriber) (s : State E)
      → IsPost request
      → handle uniq E request (sub, s) ≡ post uniq E (decode request.body sub) s
  unfolding handle
  handle-post request sub s h = rw (h.0, h.1) refl

  -- What the shared variable holds after a POST request.
  handle-decode :
      (request : Request) (sub : Subscriber) (s : State E)
      → IsPost request
      → (handle uniq E request (sub, s)).1.0 ≡ decode request.body sub
  unfolding post
  handle-decode request sub s h = ap (λ x. x.1.0) (handle-post request sub s h)

  handle_again :
      (first second : Request) (sub left : Subscriber) (t : State E)
      → IsPost first
      → IsPost second
      → IsSilent second.body
      → left ≡ decode first.body sub
      → handle uniq E second (left, t) ≡ handle uniq E first (left, t)
  handle_again first second sub left t p q silent e =
      handle-post second left t q
      ∙ ap (λ x. post uniq E x t)
          (decode-IsSilent second.body left silent
            ∙ (e ∙ sym (decode_idem first.body sub) ∙ ap (decode first.body) (sym e)))
      ∙ sym (handle-post first left t p)

  -- A POST request whose body gives none of the fields a value, be it an empty object or no JSON at
  -- all, does what the POST request before it would do if it were sent a second time, whatever that
  -- was, and whatever the world answers.
  pub serve-IsSilent :
      (first second : Request) (sub : Subscriber) (s : State E)
      → IsPost first
      → IsPost second
      → IsSilent second.body
      → serve uniq E (first ∷ second ∷ []) (sub, s) ≡ serve uniq E (first ∷ first ∷ []) (sub, s)
  unfolding serve
  serve-IsSilent first second sub s p q silent =
      let after = (handle uniq E first (sub, s)).1 in
      ap
        (λ x.
          serve_on uniq E (handle uniq E first (sub, s)).0 after
            (serve_on uniq E x.0 x.1 (none, x.1)))
        (handle_again first second sub after.0 after.1 p q silent (handle-decode first sub s p))
