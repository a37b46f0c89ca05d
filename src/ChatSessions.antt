-- ===== src/ChatSessions.antt =====
-- The cache from chats to sessions: crates/duragent/src/session/chat_session_cache.rs.
-- A `HashMap` is a list of pairs without two equal keys. The lock of the cache is held
-- for one lookup or one change only, so what other tasks do to the cache in between is a function of it:
-- `meanwhile` from the lookup to the return or to the removal, `others` while a session is created.
pub mod Keys
pub mod Agreement
mod Tests
use agnx.Common.{
  ℕ, Bool, not, Option, none, some, List, [], ◌∷◌, ◌++◌, if◌then◌else◌, Result, ok, err, Text,
  text_eq, retain,
}

abbrev pub Cache : Type 0
Cache = List (Text × Text)

abbrev pub nul : ℕ
nul = 0

-- `format!("{}\0{}\0{}", gateway, chat_id, agent)`
pub key : Text → Text → Text → Text
key gateway chat_id agent = gateway ++ nul ∷ (chat_id ++ nul ∷ agent)

-- `HashMap::get`, `HashMap::remove`, `HashMap::insert`
pub lookup : Text → Cache → Option Text
lookup k [] = none
lookup k ((j, v) ∷ c) = if text_eq j k then some v else lookup k c

pub remove : Text → Cache → Cache
remove k [] = []
remove k ((j, v) ∷ c) = if text_eq j k then remove k c else (j, v) ∷ remove k c

pub put : Text → Text → Cache → Cache
put k v c = (k, v) ∷ remove k c

pub get : Text → Text → Text → Cache → Option Text
get gateway chat_id agent = lookup (key gateway chat_id agent)

pub insert : Text → Text → Text → Text → Cache → Cache
insert gateway chat_id agent session_id = put (key gateway chat_id agent) session_id

pub remove_by_session_id : Text → Cache → Cache
remove_by_session_id session_id = retain (λ (k, v). not (text_eq v session_id))

module _ {E : Type 0} where
  -- From the call of the creator on.
  pub create : Text → Result Text E → (Cache → Cache) → Cache → Result Text E × Cache
  create k (err e) others c = (err e, others c)
  create k (ok session_id) others c = elim (lookup k (others c)) [
    | some existing ↦ (ok existing, others c)
    | none ↦ (ok session_id, put k session_id (others c))
  ]

  pub get_or_insert_with :
      Text
      → Text
      → Text
      → (Text → Bool)
      → Result Text E
      → (Cache → Cache)
      → (Cache → Cache)
      → Cache
      → Result Text E × Cache
  get_or_insert_with gateway chat_id agent validator created meanwhile others c =
      let k = key gateway chat_id agent in
      let fresh = create k created others c in
      let again = create k created others (remove k (meanwhile c)) in
      elim (lookup k c) [
        | some session_id ↦ if validator session_id then (ok session_id, meanwhile c) else again
        | none ↦ fresh
      ]
