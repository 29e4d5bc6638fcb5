-- ===== src/Log/Adapter.antt =====
-- log/adapter.go: `WriterAdapter`, a writer that logs what is written to it.
use fuck.Base.{
  ℕ, ◌≡◌, refl, Bool, false, List, [], ◌∷◌, ◌++◌, Bytes, codes, length, ◌==◌, if◌then◌else◌, arith,
  take_prefix, drop_prefix, inl, inr, List-cases,
}
use fuck.Base.Text.{trim_prefix, trim_suffix, same_refl}

pub record WriterAdapter : Type 0 where
  pub msg_key : Bytes
  pub prefix_ : Bytes
  pub join_prefix_to_msg : Bool

unfoldable pub handle_message_prefix : WriterAdapter → Bytes → Bytes
handle_message_prefix a msg =
    if length a.prefix_ == 0
    then msg
    else (let msg' = trim_prefix msg a.prefix_ in
        if a.join_prefix_to_msg then a.prefix_ ++ msg' else msg')

-- `Write`: the key and the value that are logged, and the number of bytes that is reported
unfoldable pub write : WriterAdapter → Bytes → (Bytes × Bytes) × ℕ
unfolding handle_message_prefix
write a p = ((a.msg_key, handle_message_prefix a (trim_suffix p (codes "\n"))), length p)

abbrev pub message_key : Bytes → WriterAdapter → WriterAdapter
message_key key a = record a { msg_key = key }

abbrev pub with_prefix : Bytes → Bool → WriterAdapter → WriterAdapter
with_prefix prefix_ join_prefix_to_msg a = record a {
  prefix_ = prefix_;
  join_prefix_to_msg = join_prefix_to_msg;
}

abbrev set_options : List (WriterAdapter → WriterAdapter) → WriterAdapter → WriterAdapter
set_options [] a = a
set_options (option ∷ options) a = set_options options (option a)

abbrev pub new_writer_adapter : List (WriterAdapter → WriterAdapter) → WriterAdapter
new_writer_adapter options =
    set_options options (record { msg_key = codes "msg"; prefix_ = []; join_prefix_to_msg = false })

-- A message behind the prefix is logged with the prefix once if it is to be joined, and without it
-- if not.
pub handle_message_prefix-append :
    (a : WriterAdapter) (msg : Bytes)
    → handle_message_prefix a (a.prefix_ ++ msg)
      ≡ (if a.join_prefix_to_msg then a.prefix_ ++ msg else msg)
unfolding handle_message_prefix
handle_message_prefix-append a msg = elim (List-cases a.prefix_) [
  | inl empty ↦ rw empty (ground arith)
  | inr (c, s, e) ↦
      let full : (length a.prefix_ == 0) ≡ false = rw e (ground arith) in
      rw (full, take_prefix a.prefix_ msg, same_refl a.prefix_, drop_prefix a.prefix_ msg) refl
]
