-- ===== src/ChatSessions/Tests.antt =====
-- crates/duragent/src/session/chat_session_cache.rs at a concrete chat.
use agnx.Common.{◌⊎◌, Text, Result, ◌≡◌, refl, true, [], arith, ok, codes}
use agnx.ChatSessions.{insert, Cache, key, get_or_insert_with}
use agnx.ChatSessions.Keys.{key_injective}
use agnx.ChatSessions.Agreement.{GivesCached, Agrees, get_or_insert_with-Agrees}

key_injective_example : (codes "t" ≡ codes "t") × (codes "1" ≡ codes "1") × (codes "a" ≡ codes "a")
key_injective_example =
    key_injective (codes "t") (codes "1") (codes "a") (codes "t") (codes "1") (codes "a")
      (omega arith, tt) (omega arith, tt) (omega arith, tt) (omega arith, tt) refl

-- The session is removed while the validator is asked.
abbrev called : Result Text Unit × Cache
called =
    get_or_insert_with (codes "t") (codes "1") (codes "a") (λ id. true) (ok (codes "s2")) (λ c. [])
      (λ c. c) (insert (codes "t") (codes "1") (codes "a") (codes "s1") [])

get_or_insert_with-Agrees_example :
    GivesCached
      (key (codes "t") (codes "1") (codes "a"))
      (λ id. true)
      (λ c. [])
      (insert (codes "t") (codes "1") (codes "a") (codes "s1") [])
      called
    ⊎ Agrees (key (codes "t") (codes "1") (codes "a")) called
get_or_insert_with-Agrees_example =
    get_or_insert_with-Agrees (codes "t") (codes "1") (codes "a") (λ id. true) (ok (codes "s2"))
      (λ c. []) (λ c. c) (insert (codes "t") (codes "1") (codes "a") (codes "s1") [])
