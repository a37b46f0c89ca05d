-- ===== src/ChatSessions/Keys.antt =====
-- The keys of crates/duragent/src/session/chat_session_cache.rs.
use agnx.Common.{◌≢◌, ◌≡◌, refl, sym, [], ◌∷◌, ◌++◌, Text, All}
use agnx.ChatSessions.{nul, key}

-- No NUL in the text.
abbrev pub HasNoNul : Text → Type 0
HasNoNul = All (λ c. c ≢ nul)

split_at_nul :
    (a b s t : Text) → HasNoNul a → HasNoNul b → a ++ nul ∷ s ≡ b ++ nul ∷ t → (a ≡ b) × (s ≡ t)
split_at_nul [] [] s t h k e = (refl, cc)
split_at_nul [] (d ∷ b) s t h k e = let q : nul ≡ d = cc in absurd (k.0 (sym q))
split_at_nul (c ∷ a) [] s t h k e = let q : c ≡ nul = cc in absurd (h.0 q)
split_at_nul (c ∷ a) (d ∷ b) s t h k e =
    let q : c ≡ d = cc in
    let r : a ++ nul ∷ s ≡ b ++ nul ∷ t = cc in
    let (x, y) = split_at_nul a b s t h.1 k.1 r in (cc (q, x), y)

-- Two chats have the same key only if gateway, chat and agent are the same, if no gateway and no chat has
-- a NUL in its name.
pub key_injective :
    (g c a g' c' a' : Text)
    → HasNoNul g
    → HasNoNul c
    → HasNoNul g'
    → HasNoNul c'
    → key g c a ≡ key g' c' a'
    → (g ≡ g') × (c ≡ c') × (a ≡ a')
unfolding key
key_injective g c a g' c' a' hg hc hg' hc' e =
    let (x, r) = split_at_nul g g' (c ++ nul ∷ a) (c' ++ nul ∷ a') hg hg' e in
    let (y, z) = split_at_nul c c' a a' hc hc' r in (x, y, z)
