-- ===== src/Clients/Nacos/Requests.antt =====
-- clients/nacos/client.go: `PublishConfig`, `DeleteConfig`, `QueryConfig` and `GetConfig`. They act
-- on a copy of the client, so a token that they get is lost with the copy.
pub mod Laws
pub mod Tests
use fuck.Base.{
  ℕ, suc, ◌+◌, Bool, true, false, not, List, [], ◌∷◌, ◌++◌, Option, none, some, Bytes, codes,
  length, ltb, ◌==◌, if◌then◌else◌,
}
use fuck.Base.Int.{ℤ, pos, is_int}
use fuck.Base.Text.{itoa}
use fuck.Errors.{Err, nil, fundamental, new_error, not_found}
use fuck.Clients.Nacos.Options.{ClientConfig, ClientOption, set_options, default_config}
use fuck.Clients.Nacos.Watch.{Content, WatchItem, register, run_item_watch}
use fuck.Clients.Nacos.Api.{
  Body, unreadable, undecodable, decoded, body_of, Response, Reply, Failure, transport, unread,
  bad_json, no_token, bad_content_type, bad_body, refused, refused_code, Answer, ok, failed, Client,
  Net, undecoded, authorization, do_request,
}

-- `ConfigParam`
pub record ConfigParam : Type 0 where
  pub data_id : Bytes
  pub group : Bytes
  pub content : Bytes
  pub tag : Bytes
  pub app_name : Bytes
  pub desc : Bytes
  pub effect : Bytes
  pub type_ : Bytes
  pub schema : Bytes
  pub src_user : Bytes
  pub config_tags : Bytes

abbrev pub config_api : Bytes
config_api = codes "/v2/cs/config"

abbrev pub key_form : Client → ConfigParam → List (Bytes × Bytes)
key_form c param =
    (codes "namespaceId", c.cfg.namespace_id)
    ∷ (codes "tenant", c.cfg.namespace_id)
    ∷ (codes "group", param.group)
    ∷ (codes "dataId", param.data_id)
    ∷ []

abbrev pub query_form : Client → ConfigParam → List (Bytes × Bytes)
query_form c param = key_form c param ++ (codes "tag", param.tag) ∷ []

abbrev pub publish_form : Client → ConfigParam → List (Bytes × Bytes)
publish_form c param =
    key_form c param
    ++ (codes "content", param.content)
      ∷ (codes "tag", param.tag)
      ∷ (codes "appName", param.app_name)
      ∷ (codes "srcUser", param.src_user)
      ∷ (codes "configTags", param.config_tags)
      ∷ (codes "desc", param.desc)
      ∷ (codes "effect", param.effect)
      ∷ (codes "type", param.type_)
      ∷ (codes "schema", param.schema)
      ∷ []

-- what is made of a reply: its data if the code is 0, and else the first text that is not empty
abbrev pub reply_result : {D : Type 0} → Reply D → Answer D
reply_result r =
    if not (is_int r.code (pos 0))
    then if not (length r.error == 0)
      then failed (refused r.error)
      else if not (length r.message == 0)
      then failed (refused r.message)
      else failed (refused_code r.code)
    else ok r.reply_data

abbrev pub reply_of_body : {D : Type 0} → ℕ → Body (Reply D) → Answer D
reply_of_body status unreadable = failed unread
reply_of_body status (undecodable buffered) = failed (undecoded status buffered)
reply_of_body status (decoded r) = reply_result r

abbrev pub body_result : {D : Type 0} → (Bytes → Option (Reply D)) → Answer Response → Answer D
body_result decode (failed why) = failed why
body_result decode (ok resp) = reply_of_body resp.status_code (body_of decode resp.body)

-- the addresses of an error that is made and of what is inside it
pub record Fresh : Type 0 where
  pub outer : ℕ
  pub inner : ℕ

abbrev pub not_found_error_value : ℕ → Err
not_found_error_value inner = new_error not_found inner (pos 404) (codes "record not found") []

-- the errors of `QueryConfig`; the text of a bare code is what `%s` makes of an int
abbrev pub query_refused : Fresh → ℤ → Bytes → Bytes → Err
query_refused at code error message =
    if is_int code (pos 20004)
    then not_found_error_value at.inner
    else if not (length error == 0)
    then new_error at.outer at.inner code (codes "get config failed: " ++ error) []
    else if not (length message == 0)
    then new_error at.outer at.inner code (codes "get config failed: " ++ message) []
    else new_error at.outer at.inner code
        (codes "get config failed: code=%!s(int=" ++ itoa code ++ codes ")") []

-- the errors that come from elsewhere, with some text
abbrev pub plain_error : Fresh → Failure → Err
plain_error at why = fundamental at.outer (codes "query failed")

abbrev pub query_reply : Fresh → Bytes → Reply Bytes → Option Content × Err
query_reply at md5 r =
    if not (is_int r.code (pos 0))
    then (none, query_refused at r.code r.error r.message)
    else (some (record { content_md5 = md5; content = r.reply_data }), nil)

abbrev pub query_body : Fresh → ℕ → Bytes → Body (Reply Bytes) → Option Content × Err
query_body at status md5 unreadable = (none, plain_error at unread)
query_body at status md5 (undecodable buffered) = (none, plain_error at (undecoded status buffered))
query_body at status md5 (decoded r) = query_reply at md5 r

abbrev pub query_result :
    (Bytes → Option (Reply Bytes)) → Fresh → Answer Response → Option Content × Err
query_result decode at (failed why) = (none, plain_error at why)
query_result decode at (ok resp) =
    query_body at resp.status_code resp.content_md5 (body_of decode resp.body)

-- the parameters with which the watchdog asks
abbrev pub key_param : Bytes → Bytes → ConfigParam
key_param data_id group = record {
  data_id = data_id;
  group = group;
  content = [];
  tag = [];
  app_name = [];
  desc = [];
  effect = [];
  type_ = [];
  schema = [];
  src_user = [];
  config_tags = [];
}

module _ {S : Type 0} (net : Net S) where
  unfoldable pub publish_config : ℕ → ConfigParam → Client → S → Answer Bool × S
  unfolding do_request
  publish_config now param c s =
      let done = do_request net now (codes "POST") config_api (publish_form c param) c s in
      (body_result net.as_flag done.0.0, done.1)

  unfoldable pub delete_config : ℕ → ConfigParam → Client → S → Answer Bool × S
  unfolding do_request
  delete_config now param c s =
      let form = query_form c param in
      let done = do_request net now (codes "DELETE") config_api form c s in
      (body_result net.as_flag done.0.0, done.1)

  unfoldable pub query_config : Fresh → ℕ → ConfigParam → Client → S → (Option Content × Err) × S
  unfolding do_request
  query_config at now param c s =
      let form = query_form c param in
      let done = do_request net now (codes "GET") config_api form c s in
      (query_result net.as_text at done.0.0, done.1)

  -- `GetConfig`: the content, empty with an error
  unfoldable pub get_config : Fresh → ℕ → ConfigParam → Client → S → (Bytes × Err) × S
  unfolding query_config
  get_config at now param c s =
      let asked = query_config at now param c s in
      ((elim asked.0.0 [ none ↦ [] | some answer ↦ answer.content ], asked.0.1), asked.1)

  -- `NewConfigClient`; it logs in at once
  unfoldable pub new_config_client : ℕ → List ClientOption → S → Answer Client × S
  unfolding authorization
  new_config_client now opts s =
      authorization net now
        (record { cfg = set_options opts default_config; token = []; token_expire_at = 0 }) s

  -- `ListenConfig`, with the new id: the answer, who is told, the targets and the server
  unfoldable pub listen_config :
      Fresh
      → ℕ
      → Bytes
      → ConfigParam
      → Client
      → List WatchItem
      → S
      → ((Option Content × List Bytes) × List WatchItem) × S
  unfolding query_config register run_item_watch
  listen_config at now id param c targets s =
      let registered = register param.data_id param.group id targets in
      let asked = query_config at now (key_param param.data_id param.group) c s in
      let run = run_item_watch now asked.0.0 param.data_id param.group registered in
      (((asked.0.0, run.1), run.0), asked.1)
