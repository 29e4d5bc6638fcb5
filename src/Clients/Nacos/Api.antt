-- ===== src/Clients/Nacos/Api.antt =====
-- clients/nacos/client.go: the requests of `configClient` and what it makes of the responses.
use fuck.Base.{
  ℕ, ◌+◌, ◌*◌, Bool, not, ◌||◌, List, [], ◌∷◌, Option, none, some, Bytes, codes, length, take, same,
  ltb, ◌==◌, if◌then◌else◌,
}
use fuck.Base.Int.{ℤ}
use fuck.Base.Text.{has_prefix}
use fuck.Clients.Nacos.Options.{ClientConfig, url}
use fuck.Clients.Nacos.Watch.{second}

-- a body as the JSON decoder leaves it: it cannot be read, it is not the JSON that is expected (with
-- the first bytes that were read), or it is
pub data Body (R : Type 0) : Type 0 where
  unreadable : Body R
  undecodable : (buffered : Bytes) → Body R
  decoded : (r : R) → Body R

-- `body` is none if its first bytes cannot be read.
pub record Response : Type 0 where
  pub status_code : ℕ
  pub content_type : Bytes
  pub content_md5 : Bytes
  pub body : Option Bytes

-- the decoder on a body, of which `NewPreReader` has kept the first 1024 bytes
abbrev pub or_undecodable : {R : Type 0} → Bytes → Option R → Body R
or_undecodable text none = undecodable (take 1024 text)
or_undecodable text (some r) = decoded r

abbrev pub body_of : {R : Type 0} → (Bytes → Option R) → Option Bytes → Body R
body_of decode none = unreadable
body_of decode (some text) = or_undecodable text (decode text)

-- `PublishConfigResponse`, `DeleteConfigResponse` and `ConfigQueryResponse`, by the type of `data`
pub record Reply (D : Type 0) : Type 0 where
  pub error : Bytes
  pub message : Bytes
  pub code : ℤ
  pub reply_data : D

-- `LoginResponse`
pub record LoginReply : Type 0 where
  pub access_token : Bytes
  pub token_ttl : ℕ
  pub error : Bytes
  pub message : Bytes

pub data Failure : Type 0 where
  transport unread bad_json no_token bad_content_type : Failure
  bad_body : (buffered : Bytes) → Failure
  refused : (why : Bytes) → Failure
  refused_code : (code : ℤ) → Failure

pub data Answer (A : Type 0) : Type 0 where
  ok : A → Answer A
  failed : Failure → Answer A

pub record Client : Type 0 where
  pub cfg : ClientConfig
  pub token : Bytes
  pub token_expire_at : ℕ

pub record Request : Type 0 where
  pub method : Bytes
  pub target : Bytes
  pub form : List (Bytes × Bytes)
  pub in_body : Bool
  pub bearer : Bytes

-- net/http with a server behind it, on a state, none for an error; `url.Parse`, and encoding/json for
-- the three kinds of replies
pub record Net (S : Type 0) : Type 0 where
  pub post_form : Bytes → List (Bytes × Bytes) → S → S × Option Response
  pub send : Request → S → S × Option Response
  pub parses : Bytes → Bool
  pub as_login : Bytes → Option LoginReply
  pub as_flag : Bytes → Option (Reply Bool)
  pub as_text : Bytes → Option (Reply Bytes)

abbrev pub status_ok : ℕ
status_ok = 200

abbrev pub undecoded : ℕ → Bytes → Failure
undecoded status buffered = if status == status_ok then bad_json else bad_body buffered

-- the JSON part of `Authorization`
abbrev pub authorized : ℕ → LoginReply → Client → Answer Client
authorized now r c =
    if not (length r.error == 0)
    then failed (refused r.error)
    else if not (length r.message == 0)
    then failed (refused r.message)
    else if length r.access_token == 0
    then failed no_token
    else ok (record c { token = r.access_token; token_expire_at = now + r.token_ttl * second })

abbrev pub is_json : Response → Bool
is_json resp = has_prefix resp.content_type (codes "application/json")

abbrev pub login_of_body : ℕ → Client → Response → Body LoginReply → Answer Client
login_of_body now c resp unreadable = failed unread
login_of_body now c resp (undecodable buffered) =
    if is_json resp then failed (undecoded resp.status_code buffered) else failed bad_content_type
login_of_body now c resp (decoded r) =
    if is_json resp then authorized now r c else failed bad_content_type

abbrev pub login_result : (Bytes → Option LoginReply) → ℕ → Client → Option Response → Answer Client
login_result decode now c none = failed transport
login_result decode now c (some resp) = login_of_body now c resp (body_of decode resp.body)

abbrev pub minute : ℕ
minute = 60 * second

-- `for name := range data`: values that are empty go
abbrev pub without_empty : List (Bytes × Bytes) → List (Bytes × Bytes)
without_empty [] = []
without_empty (entry ∷ form) =
    if length entry.1 == 0 then without_empty form else entry ∷ without_empty form

abbrev pub is_form_method : Bytes → Bool
is_form_method method = same method (codes "POST") || same method (codes "PUT")

module _ {S : Type 0} (net : Net S) where
  unfoldable pub authorization : ℕ → Client → S → Answer Client × S
  unfolding url
  authorization now c s =
      let sent =
        net.post_form (url c.cfg (codes "v1/auth/login"))
          ((codes "username", c.cfg.username) ∷ (codes "password", c.cfg.password) ∷ []) s in
      (login_result net.as_login now c sent.1, sent.0)

  -- the client with a token that lasts for a minute still
  unfoldable pub logged_in : ℕ → Client → S → Answer Client × S
  unfolding authorization
  logged_in now c s =
      if ltb c.token_expire_at (now + minute) then authorization now c s else (ok c, s)

  abbrev pub send_as : Bytes → Bytes → List (Bytes × Bytes) → Client → S → Answer Response × S
  send_as method api form c s =
      if net.parses (url c.cfg api)
      then (let sent =
            net.send
              (record {
                method = method;
                target = url c.cfg api;
                form = without_empty form;
                in_body = is_form_method method;
                bearer = c.token;
              })
              s in
          (elim sent.1 [ none ↦ failed transport | some resp ↦ ok resp ], sent.0))
      else (failed transport, s)

  -- `doRequest`: the response, and the client that it leaves
  unfoldable pub do_request :
      ℕ → Bytes → Bytes → List (Bytes × Bytes) → Client → S → (Answer Response × Client) × S
  unfolding logged_in
  do_request now method api form c s =
      let (login, s') = logged_in now c s in
      elim login [
        | failed why ↦ ((failed why, c), s')
        | ok c' ↦ let (answer, s'') = send_as method api form c' s' in ((answer, c'), s'')
      ]
