-- ===== src/Clients/Nacos/Options.antt =====
-- clients/nacos/client_config.go: the configuration of the client, and its address.
use fuck.Base.{
  ℕ, ◌+◌, ◌*◌, ◌-◌, ◌^◌, not, ◌&&◌, List, [], ◌∷◌, ◌++◌, Option, none, some, Bytes, codes, length,
  same, leb, ltb, ◌==◌, if◌then◌else◌,
}
use fuck.Base.Monad.{◌>>=◌}
use fuck.Base.Text.{format_uint, join}
use fuck.Http.{split}

-- The proxy is a function on URLs, here by the address it was made from.
pub record ClientConfig : Type 0 where
  pub server_addr : Bytes
  pub server_port : ℕ
  pub username : Bytes
  pub password : Bytes
  pub namespace_id : Bytes
  pub schema : Bytes
  pub context_path : Bytes
  pub proxy : Option Bytes

abbrev pub ClientOption : Type 0
ClientOption = ClientConfig → ClientConfig

abbrev pub with_username : Bytes → ClientOption
with_username username config = record config { username = username }

abbrev pub with_password : Bytes → ClientOption
with_password password config = record config { password = password }

abbrev pub with_namespace_id : Bytes → ClientOption
with_namespace_id namespace_id config = record config { namespace_id = namespace_id }

abbrev pub with_context_path : Bytes → ClientOption
with_context_path path config = record config { context_path = path }

abbrev pub with_scheme : Bytes → ClientOption
with_scheme scheme config = record config { schema = scheme }

abbrev pub with_server_port : ℕ → ClientOption
with_server_port num config = record config { server_port = num }

abbrev pub with_server_addr : Bytes → ClientOption
with_server_addr addr config = record config { server_addr = addr }

abbrev pub with_proxy : Bytes → ClientOption
with_proxy addr config =
    if not (length addr == 0) then record config { proxy = some addr } else config

-- a URL as `url.Parse` takes it apart
pub record Url : Type 0 where
  pub scheme : Bytes
  pub hostname : Bytes
  pub port : Bytes
  pub path : Bytes

-- `strconv.ParseUint(s, 10, 64)` on digits behind the value `x`
abbrev pub parse_uint_from : ℕ → Bytes → Option ℕ
parse_uint_from x [] = some x
parse_uint_from x (c ∷ s) =
    let y = x * 10 + (c - b'0') in
    let rest = parse_uint_from y s in
    if leb b'0' c && leb c b'9' && ltb y (2 ^ 64) then rest else none

abbrev pub parse_uint : Bytes → Option ℕ
parse_uint [] = none
parse_uint (c ∷ s) = parse_uint_from 0 (c ∷ s)

abbrev pub or_text : Bytes → Bytes → Bytes
or_text s d = if length s == 0 then d else s

-- `WithServerURL`, for what `url.Parse` returns
unfoldable pub with_server_url : Option Url → Option ClientOption
with_server_url parsed = do
  u ← parsed
  port ← parse_uint (or_text u.port (codes "80"))
  some (λ config. record config {
    server_port = port;
    server_addr = u.hostname;
    schema = or_text u.scheme (codes "http");
    context_path = or_text u.path (codes "/nacos");
  })

abbrev pub set_options : List ClientOption → ClientOption
set_options [] cfg = cfg
set_options (opt ∷ opts) cfg = set_options opts (opt cfg)

abbrev pub default_config : ClientConfig
default_config = record {
  server_addr = codes "127.0.0.1";
  server_port = 8848;
  username = [];
  password = [];
  namespace_id = [];
  schema = codes "http";
  context_path = codes "/nacos";
  proxy = none;
}

-- `path.Clean` on the segments of a path that begins with a slash; `done` is what is kept, the last
-- segment first
abbrev pub resolve : List Bytes → List Bytes → List Bytes
resolve kept [] = kept
resolve kept (part ∷ parts) =
    if length part == 0
    then resolve kept parts
    else if same part (codes ".")
    then resolve kept parts
    else if same part (codes "..")
    then resolve (elim kept [ [] ↦ [] | last ∷ rest ↦ rest ]) parts
    else resolve (part ∷ kept) parts

abbrev pub reversed : List Bytes → List Bytes → List Bytes
reversed [] done = done
reversed (part ∷ kept) done = reversed kept (part ∷ done)

-- `path.Join` of a path that begins with a slash
unfoldable pub join_rooted : Bytes → Bytes → Bytes
unfolding split
join_rooted a b =
    b'/' ∷ join (codes "/") (reversed (resolve [] (split b'/' (a ++ codes "/" ++ b))) [])

abbrev pub rooted_context : Bytes → Bytes
rooted_context [] = codes "/nacos"
rooted_context (c ∷ path) = if not (c == b'/') then b'/' ∷ c ∷ path else c ∷ path

-- `(*configClient) url`
unfoldable pub url : ClientConfig → Bytes → Bytes
unfolding join_rooted
url cfg api =
    cfg.schema
    ++ codes "://"
    ++ cfg.server_addr
    ++ codes ":"
    ++ format_uint cfg.server_port
    ++ join_rooted (rooted_context cfg.context_path) api
