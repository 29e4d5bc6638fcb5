-- ===== src/Clients/Storage/Listing.antt =====
-- clients/storage/storage.go: `Object`; s3/s3.go: the loop of `ListObject` over the pages of a list,
-- which oss/oss.go has too.
use fuck.Base.{
  ℕ, zero, suc, ◌≤◌, ◌≡◌, refl, ap, ◌∙◌, Bool, true, false, List, [], ◌∷◌, ◌++◌, Option, none, some,
  Bytes, length, ◌==◌, arith, append_assoc, append-nil, if◌then◌else◌,
}
use fuck.Base.Int.{ℤ}
use fuck.Base.Text.{trim}
use fuck.Clients.Storage.Path.{PathError}

-- `Object`; the times are numbers, and the zero time is 0
pub record Object : Type 0 where
  pub key : Bytes
  pub last_modified : ℕ
  pub size : ℤ
  pub etag : Bytes
  pub storage_class : Bytes
  pub mode : ℕ
  pub headers : List (Bytes × Bytes)
  pub metadata : List (Bytes × Bytes)

-- `remote` is an error of the library, with the status of the response if it has one
pub data StorageError : Type 0 where
  bad_path : (err : PathError) → StorageError
  remote : (id : ℕ) (status : Option ℕ) → StorageError
  not_exist cancelled not_supported : StorageError

-- a reply to `ListObjectsV2`
pub record Page : Type 0 where
  pub contents : List Object
  pub next_continuation_token : Option Bytes

-- how a list ends; `running` is one that has used up its rounds
pub data ListEnd : Type 0 where
  returned : (err : Option StorageError) → ListEnd
  running : ListEnd

-- the object that the callback gets for one of the library
abbrev pub listed : Object → Object
listed obj = record {
  key = obj.key;
  last_modified = obj.last_modified;
  size = obj.size;
  etag = trim b'"' obj.etag;
  storage_class = obj.storage_class;
  mode = 0;
  headers = [];
  metadata = [];
}

abbrev pub listed_all : List Object → List Object
listed_all [] = []
listed_all (obj ∷ objs) = listed obj ∷ listed_all objs

-- a token that is nil or empty
abbrev pub is_last : Option Bytes → Bool
is_last none = true
is_last (some token) = length token == 0

-- after the objects of a page: the error of the context, the end, or the next round
abbrev pub after_objects : {T : Type 0} → Option StorageError → Bool → T × ListEnd → T → T × ListEnd
after_objects (some err) last rest t = (t, returned (some err))
after_objects none true rest t = (t, returned none)
after_objects none false rest t = rest

module _ {T : Type 0} (is_done : T → Bool) (callback : Object → T → T) where
  -- `for _, obj := range result.Contents`
  abbrev pub each_object : List Object → T → T × Option StorageError
  each_object [] t = (t, none)
  each_object (obj ∷ objs) t =
      let rest = each_object objs (callback (listed obj) t) in
      if is_done t then (t, some cancelled) else rest

  -- a round behind the call of the library, for the rounds that may follow
  abbrev pub after_list :
      (Option Bytes → T → T × ListEnd) → Page × Option StorageError → T → T × ListEnd
  after_list next (result, some err) t = (t, returned (some err))
  after_list next (result, none) t =
      let (t', stopped) = each_object result.contents t in
      after_objects stopped (is_last result.next_continuation_token)
        (next result.next_continuation_token t') t'

  -- the loop, in at most so many rounds
  unfoldable pub list_loop :
      (Option Bytes → Page × Option StorageError) → ℕ → Option Bytes → T → T × ListEnd
  list_loop list zero token t = (t, running)
  list_loop list (suc fuel) token t =
      if is_done t
      then (t, returned (some cancelled))
      else after_list (list_loop list fuel) (list token) t

-- The pages behind a token, and the objects of the store on them: the last one has no next token, or
-- an empty one.
pub data Pages (list : Option Bytes → Page × Option StorageError)
    : ℕ → Option Bytes → List Object → Type 0 where
  last :
      {token : Option Bytes} (contents : List Object)
      → list token ≡ (record { contents = contents; next_continuation_token = none }, none)
      → Pages list 1 token contents
  last_empty :
      {token : Option Bytes} (contents : List Object)
      → list token ≡ (record { contents = contents; next_continuation_token = some [] }, none)
      → Pages list 1 token contents
  more :
      {token : Option Bytes} {n : ℕ} {objs : List Object} (contents : List Object) (c : ℕ)
      (next : Bytes)
      → list token
        ≡ (record { contents = contents; next_continuation_token = some (c ∷ next) }, none)
      → Pages list n (some (c ∷ next)) objs
      → Pages list (suc n) token (contents ++ objs)

-- what a listing tells of an object: its etag comes without the quotes around it
pub record IsListed (obj entry : Object) : Type 0 where
  pub same_key : entry.key ≡ obj.key
  pub same_time : entry.last_modified ≡ obj.last_modified
  pub same_size : entry.size ≡ obj.size
  pub bare_etag : entry.etag ≡ trim b'"' obj.etag
  pub same_class : entry.storage_class ≡ obj.storage_class

-- one entry for each object, in their order
pub data AllListed : List Object → List Object → Type 0 where
  no_entries : AllListed [] []
  with_entry :
      {obj listed_obj : Object} {objs entries : List Object}
      → IsListed obj listed_obj
      → AllListed objs entries
      → AllListed (obj ∷ objs) (listed_obj ∷ entries)

-- the calls of a function that appends to a list, as in `ReadDir`
abbrev pub append_object : Object → List Object → List Object
append_object obj entries = entries ++ obj ∷ []

abbrev pub never : List Object → Bool
never entries = false

each_object-append_object :
    (objs entries : List Object)
    → each_object never append_object objs entries ≡ (entries ++ listed_all objs, none)
each_object-append_object [] entries = rw (append-nil entries) refl
each_object-append_object (obj ∷ objs) entries =
    each_object-append_object objs (entries ++ listed obj ∷ [])
    ∙ rw (append_assoc entries (listed obj ∷ []) (listed_all objs)) refl

listed_all-append :
    (objs others : List Object) → listed_all (objs ++ others) ≡ listed_all objs ++ listed_all others
listed_all-append [] others = refl
listed_all-append (obj ∷ objs) others = ap (◌∷◌ (listed obj)) (listed_all-append objs others)

pub listed_all_lem : (objs : List Object) → AllListed objs (listed_all objs)
listed_all_lem [] = no_entries
listed_all_lem (obj ∷ objs) =
    with_entry
      (record {
        same_key = refl;
        same_time = refl;
        same_size = refl;
        bare_etag = refl;
        same_class = refl;
      })
      (listed_all_lem objs)

pub list_loop-Pages :
    {list : Option Bytes → Page × Option StorageError} {n : ℕ} {token : Option Bytes}
    {objs : List Object} (fuel : ℕ) (entries : List Object)
    → Pages list n token objs
    → n ≤ fuel
    → list_loop never append_object list fuel token entries
      ≡ (entries ++ listed_all objs, returned none)
unfolding list_loop
list_loop-Pages zero entries (last contents e) h = absurd (omega arith)
list_loop-Pages zero entries (last_empty contents e) h = absurd (omega arith)
list_loop-Pages zero entries (more contents c next e p) h = absurd (omega arith)
list_loop-Pages (suc fuel) entries (last contents e) h =
    rw (e, each_object-append_object contents entries) refl
list_loop-Pages (suc fuel) entries (last_empty contents e) h =
    rw (e, each_object-append_object contents entries) refl
list_loop-Pages (suc fuel) entries (more {n = n} {objs = objs} contents c next e p) h =
    let full : is_last (some (c ∷ next)) ≡ false = ground arith in
    rw (e, each_object-append_object contents entries, full, listed_all-append contents objs)
      (list_loop-Pages {n = n} {objs = objs} fuel (entries ++ listed_all contents) p (omega arith)
        ∙ ap (λ all. (all, returned none))
            (append_assoc entries (listed_all contents) (listed_all objs)))
