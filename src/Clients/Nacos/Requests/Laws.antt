-- ===== src/Clients/Nacos/Requests/Laws.antt =====
-- What callers of the client can rely on, and how often it logs in.
use fuck.Base.{
  ◌⊎◌, ℕ, ◌+◌, ◌≡◌, refl, ap, ◌∙◌, Bool, true, false, ◌&&◌, ◌||◌, List, [], ◌∷◌, Option, some,
  Bytes, codes, length, ltb, arith, inl, inr, Bool-cases, if◌then◌else◌, ◌==◌,
}
use fuck.Base.Int.{ℤ, pos, is_int}
use fuck.Errors.{is_not_fount, new_error}
use fuck.Errors.Chain.{any_in, is_missing, has_joined, is_not_fount-any_in}
use fuck.Clients.Nacos.Options.{url}
use fuck.Clients.Nacos.Api.{
  Response, body_of, Body, Reply, unreadable, undecodable, decoded, Failure, Answer, ok, failed,
  Client, Net, minute, authorization, logged_in, do_request, send_as,
}
use fuck.Clients.Nacos.Requests.{
  Fresh, ConfigParam, query_refused, query_reply, query_body, query_form, config_api, query_result,
  query_config,
}

-- a reply that says that there is no such configuration, by the code of Nacos or by 404
abbrev pub body_missing : Body (Reply Bytes) → Bool
body_missing unreadable = false
body_missing (undecodable buffered) = false
body_missing (decoded r) = is_int r.code (pos 20004) || is_int r.code (pos 404)

abbrev pub says_missing : (Bytes → Option (Reply Bytes)) → Answer Response → Bool
says_missing decode (failed why) = false
says_missing decode (ok resp) = body_missing (body_of decode resp.body)

-- addresses that differ from those of the known errors
abbrev pub is_fresh : Fresh → Bool
is_fresh at = ltb 1 at.outer && ltb 1 at.inner

any_in-new_error :
    (at : Fresh) (code : ℤ) (msg : Bytes)
    → is_fresh at ≡ true
    → any_in is_missing (new_error at.outer at.inner code msg []) ≡ is_int code (pos 404)
any_in-new_error at code msg f = ground (arith, f)

any_in-query_refused :
    (at : Fresh) (code : ℤ) (error message : Bytes)
    → is_fresh at ≡ true
    → any_in is_missing (query_refused at code error message)
      ≡ (is_int code (pos 20004) || is_int code (pos 404))
any_in-query_refused at code error message f = elim (Bool-cases (is_int code (pos 20004))) [
  | inl gone ↦ rw gone (ground (arith, f))
  | inr other ↦ elim (Bool-cases (length error == 0)) [
    | inr with_error ↦ rw (other, with_error) (any_in-new_error at code [] f)
    | inl no_error ↦ elim (Bool-cases (length message == 0)) [
      | inr with_message ↦ rw (other, no_error, with_message) (any_in-new_error at code [] f)
      | inl no_message ↦ rw (other, no_error, no_message) (any_in-new_error at code [] f)
    ]
  ]
]

any_in-query_reply :
    (at : Fresh) (md5 : Bytes) (r : Reply Bytes)
    → is_fresh at ≡ true
    → any_in is_missing (query_reply at md5 r).1
      ≡ (is_int r.code (pos 20004) || is_int r.code (pos 404))
any_in-query_reply at md5 r f = elim (Bool-cases (is_int r.code (pos 0))) [
  | inl zero_code ↦ rw zero_code (ground (arith, zero_code))
  | inr bad_code ↦ rw (bad_code, any_in-query_refused at r.code r.error r.message f) refl
]

any_in-query_body :
    (at : Fresh) (status : ℕ) (md5 : Bytes) (body : Body (Reply Bytes))
    → is_fresh at ≡ true
    → any_in is_missing (query_body at status md5 body).1 ≡ body_missing body
any_in-query_body at status md5 unreadable f = ground (arith, f)
any_in-query_body at status md5 (undecodable buffered) f = ground (arith, f)
any_in-query_body at status md5 (decoded r) f = any_in-query_reply at md5 r f

any_in-query_result :
    (decode : Bytes → Option (Reply Bytes)) (at : Fresh) (answer : Answer Response)
    → is_fresh at ≡ true
    → any_in is_missing (query_result decode at answer).1 ≡ says_missing decode answer
any_in-query_result decode at (failed why) f = ground (arith, f)
any_in-query_result decode at (ok resp) f =
    any_in-query_body at resp.status_code resp.content_md5 (body_of decode resp.body) f

refused_alone :
    (at : Fresh) (code : ℤ) (error message : Bytes)
    → has_joined (query_refused at code error message) ≡ false
refused_alone at code error message = elim (Bool-cases (is_int code (pos 20004))) [
  | inl gone ↦ rw gone refl
  | inr other ↦ elim (Bool-cases (length error == 0)) [
    | inr with_error ↦ rw (other, with_error) refl
    | inl no_error ↦ elim (Bool-cases (length message == 0)) [
      | inr with_message ↦ rw (other, no_error, with_message) refl
      | inl no_message ↦ rw (other, no_error, no_message) refl
    ]
  ]
]

reply_alone :
    (at : Fresh) (md5 : Bytes) (r : Reply Bytes) → has_joined (query_reply at md5 r).1 ≡ false
reply_alone at md5 r = elim (Bool-cases (is_int r.code (pos 0))) [
  | inl zero_code ↦ rw zero_code refl
  | inr bad_code ↦ rw bad_code (refused_alone at r.code r.error r.message)
]

body_alone :
    (at : Fresh) (status : ℕ) (md5 : Bytes) (body : Body (Reply Bytes))
    → has_joined (query_body at status md5 body).1 ≡ false
body_alone at status md5 unreadable = refl
body_alone at status md5 (undecodable buffered) = refl
body_alone at status md5 (decoded r) = reply_alone at md5 r

-- the errors of `QueryConfig` are not joined
result_alone :
    (decode : Bytes → Option (Reply Bytes)) (at : Fresh) (answer : Answer Response)
    → has_joined (query_result decode at answer).1 ≡ false
result_alone decode at (failed why) = refl
result_alone decode at (ok resp) =
    body_alone at resp.status_code resp.content_md5 (body_of decode resp.body)

-- `IsNotFount` is true of the error of `QueryConfig` exactly if the server has replied with the code
-- 20004 or 404.
pub is_not_fount-query_config :
    {S : Type 0} (net : Net S) (at : Fresh) (now : ℕ) (param : ConfigParam) (c : Client) (s : S)
    → is_fresh at ≡ true
    → is_not_fount (query_config net at now param c s).0.1
      ≡ some (
          says_missing net.as_text
            (do_request net now (codes "GET") config_api (query_form c param) c s).0.0)
unfolding query_config
is_not_fount-query_config net at now param c s f =
    let answer = (do_request net now (codes "GET") config_api (query_form c param) c s).0.0 in
    is_not_fount-any_in (query_result net.as_text at answer).1 (result_alone net.as_text at answer)
    ∙ ap some (any_in-query_result net.as_text at answer f)

Answer-cases :
    {A : Type 0} (a : Answer A) → ((why : Failure) × (a ≡ failed why)) ⊎ ((x : A) × (a ≡ ok x))
Answer-cases (ok x) = inr (x, refl)
Answer-cases (failed why) = inl (why, refl)

module _ {S : Type 0} (net : Net S) where
  -- the server with a count of the logins
  abbrev pub counting : Net (S × ℕ)
  counting = record {
    post_form =
        λ target form s. let sent = net.post_form target form s.0 in ((sent.0, s.1 + 1), sent.1);
    send = λ request s. let sent = net.send request s.0 in ((sent.0, s.1), sent.1);
    parses = net.parses;
    as_login = net.as_login;
    as_flag = net.as_flag;
    as_text = net.as_text;
  }

  -- calls of `QueryConfig` on one client, each at its time
  abbrev pub query_all : Fresh → ConfigParam → Client → List ℕ → S × ℕ → S × ℕ
  query_all at param c [] s = s
  query_all at param c (now ∷ times) s =
      query_all at param c times (query_config counting at now param c s).1

  -- the times at which the token of the client has less than a minute left
  abbrev pub expired : Client → List ℕ → ℕ
  expired c [] = 0
  expired c (now ∷ times) =
      (if ltb c.token_expire_at (now + minute) then 1 else 0) + expired c times

  count-logged_in :
      (c : Client) (now : ℕ) (s : S × ℕ)
      → (logged_in counting now c s).1.1
        ≡ (if ltb c.token_expire_at (now + minute) then 1 else 0) + s.1
  unfolding logged_in authorization
  count-logged_in c now s = elim (Bool-cases (ltb c.token_expire_at (now + minute))) [
    | inl late ↦ rw late (omega arith)
    | inr early ↦ rw early (omega arith)
  ]

  count-send_as :
      (method api : Bytes) (form : List (Bytes × Bytes)) (c : Client) (s : S × ℕ)
      → (send_as counting method api form c s).1.1 ≡ s.1
  count-send_as method api form c s = elim (Bool-cases (net.parses (url c.cfg api))) [
    | inl good ↦ rw good refl
    | inr bad ↦ rw bad refl
  ]

  one_query :
      (at : Fresh) (param : ConfigParam) (c : Client) (now : ℕ) (s : S × ℕ)
      → (query_config counting at now param c s).1.1
        ≡ (if ltb c.token_expire_at (now + minute) then 1 else 0) + s.1
  unfolding query_config do_request
  one_query at param c now s = elim (Answer-cases (logged_in counting now c s).0) [
    | inl (why, e) ↦ rw (query_config, do_request, e) (count-logged_in c now s)
    | inr (c', e) ↦
        rw (query_config, do_request, e)
          (count-send_as (codes "GET") config_api (query_form c param) c'
              (logged_in counting now c s).1
            ∙ count-logged_in c now s)
  ]

-- Calls of `QueryConfig` on one client log in once for each call at a time when the token of the
-- client has less than a minute left, however many calls before have logged in.
pub count-query_all :
    {S : Type 0} (net : Net S) (at : Fresh) (param : ConfigParam) (c : Client) (times : List ℕ)
    (s : S × ℕ)
    → (query_all net at param c times s).1 ≡ expired net c times + s.1
count-query_all net at param c [] s = omega arith
count-query_all net at param c (now ∷ times) s = omega (
  arith,
  one_query net at param c now s,
  count-query_all net at param c times (query_config (counting net) at now param c s).1,
)
