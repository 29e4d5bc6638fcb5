-- ===== src/Clients/Nacos/Requests/Tests.antt =====
-- A server of Nacos, runs of the client against it, and examples of the theorems.
use fuck.Base.{ℕ, ◌+◌, ◌≡◌, refl, true, [], ◌∷◌, Option, none, some, Bytes, codes}
use fuck.Base.Int.{pos}
use fuck.Errors.{is_not_fount, is_not_fount_in}
use fuck.Clients.Nacos.Options.{default_config, join_rooted, url}
use fuck.Http.{split}
use fuck.Clients.Nacos.Api.{Response, Client, Net, authorization, logged_in, do_request}
use fuck.Clients.Nacos.Requests.{ConfigParam, Fresh, query_config, key_param}
use fuck.Clients.Nacos.Requests.Laws.{query_all}

abbrev answer : Bytes → Option Response
answer body = some (record {
  status_code = 200;
  content_type = codes "application/json";
  content_md5 = codes "m";
  body = some body;
})

-- Its state is a number of requests, and it has no configuration.
abbrev net : Net ℕ
net = record {
  post_form = λ target form n. (n + 1, answer []);
  send = λ request n. (n + 1, answer []);
  parses = λ target. true;
  as_login = λ body.
      some (record { access_token = codes "t"; token_ttl = 18000; error = []; message = [] });
  as_flag = λ body. none;
  as_text = λ body.
      some (record { error = []; message = codes "no data"; code = pos 20004; reply_data = [] });
}

abbrev client : Client
client = record { cfg = default_config; token = codes "old"; token_expire_at = 7 }

abbrev at : Fresh
at = record { outer = 2; inner = 3 }

abbrev param : ConfigParam
param = key_param (codes "a") (codes "g")

-- the error of the first call is one for `IsNotFount`
first_call : is_not_fount (query_config net at 5 param client 0).0.1 ≡ some true
unfolding query_config do_request logged_in authorization is_not_fount is_not_fount_in
first_call = refl

-- three calls, three logins
logins : (query_all net at param client (5 ∷ 6 ∷ 7 ∷ []) (0, 0)).1 ≡ 3
unfolding query_config do_request logged_in authorization
logins = refl

url_run :
    (url default_config (codes "v1/auth/login") ≡ codes "http://127.0.0.1:8848/nacos/v1/auth/login")
    × (url (record default_config { context_path = codes "a//b/../c" }) (codes "/v2/cs/config")
        ≡ codes "http://127.0.0.1:8848/a/c/v2/cs/config")
unfolding url join_rooted split
url_run = (refl, refl)
