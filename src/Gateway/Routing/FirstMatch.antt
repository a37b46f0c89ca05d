-- ===== src/Gateway/Routing/FirstMatch.antt =====
-- The rule that decides in crates/duragent/src/gateway/routing.rs.
use agnx.Access.{to_ascii_lowercase, AccessConfig}
use agnx.Common.Entries.{lookup_entry}
use agnx.Common.{
  Bool-cases, inl, inr, ap, text_eq→≡, text_eq_refl, eq_iff, All, String, ◌≡◌, refl, subst, ◌↔◌,
  Bool, true, Option, none, some, arith, codes, ◌&&◌, List, [], ◌∷◌, ◌++◌, str_eq, Text, text_eq,
}
use agnx.Gateway.Protocol.{RoutingContext}
use agnx.Gateway.Routing.{
  resolve_agent, is_loaded, RoutingRule, eq_ignore_ascii_case, RoutingMatch, matches_rule, holds,
}

-- What a rule asks for: of each part that it names, the part of the message is the same, for the gateway
-- and the type of the chat up to the case of ASCII letters.
pub record Meets (c : RoutingMatch) (name : String) (routing : RoutingContext) : Type 0 where
  pub gateway :
      (g : String)
      → c.gateway ≡ some g
      → to_ascii_lowercase (codes g) ≡ to_ascii_lowercase (codes name)
  pub chat_type :
      (t : String)
      → c.chat_type ≡ some t
      → to_ascii_lowercase (codes t) ≡ to_ascii_lowercase (codes routing.chat_type)
  pub chat_id : (i : String) → c.chat_id ≡ some i → i ≡ routing.chat_id
  pub sender_id : (i : String) → c.sender_id ≡ some i → i ≡ routing.sender_id

module _ (eq : String → String → Bool) (Same : String → String → Type 0)
    (eq-Same : (a b : String) → (eq a b ≡ true) ↔ Same a b) where
  holds_iff :
      (c : Option String) (found : String)
      → (holds eq c found ≡ true) ↔ ((w : String) → c ≡ some w → Same w found)
  holds_iff none found = (λ h w e. absurd (ground (arith, e)), λ h. refl)
  holds_iff (some w) found = (
    λ h v e. subst (λ x. Same x found) (ground (arith, e)) ((eq-Same w found).0 h),
    λ h. (eq-Same w found).1 (h w refl),
  )

text_eq_iff : (a b : Text) → (text_eq a b ≡ true) ↔ (a ≡ b)
text_eq_iff a b = (λ h. text_eq→≡ a b h, λ h. subst (λ x. text_eq a x ≡ true) h (text_eq_refl a))

ignoring_case :
    (c : Option String) (found : String)
    → (holds eq_ignore_ascii_case c found ≡ true) ↔ (
        (w : String) → c ≡ some w → to_ascii_lowercase (codes w) ≡ to_ascii_lowercase (codes found))
ignoring_case c found =
    holds_iff eq_ignore_ascii_case
      (λ a b. to_ascii_lowercase (codes a) ≡ to_ascii_lowercase (codes b))
      (λ a b. text_eq_iff (to_ascii_lowercase (codes a)) (to_ascii_lowercase (codes b))) c found

exactly :
    (c : Option String) (found : String)
    → (holds (λ a b. str_eq a b) c found ≡ true) ↔ ((w : String) → c ≡ some w → w ≡ found)
exactly c found = holds_iff (λ a b. str_eq a b) (λ a b. a ≡ b) (λ a b. eq_iff a b) c found

all_four :
    (a b c d : Bool)
    → (a && b && c && d ≡ true) ↔ ((a ≡ true) × (b ≡ true) × (c ≡ true) × (d ≡ true))
all_four a b c d = ground arith

matches_rule_iff :
    (c : RoutingMatch) (gateway : String) (routing : RoutingContext)
    → (matches_rule c gateway routing ≡ true) ↔ Meets c gateway routing
unfolding matches_rule
matches_rule_iff c gateway routing =
    let four =
      all_four (holds eq_ignore_ascii_case c.gateway gateway)
        (holds eq_ignore_ascii_case c.chat_type routing.chat_type)
        (holds (λ a b. str_eq a b) c.chat_id routing.chat_id)
        (holds (λ a b. str_eq a b) c.sender_id routing.sender_id) in
    (
      λ h.
          let (a, b, i, j) = four.0 h in
          record {
            gateway = (ignoring_case c.gateway gateway).0 a;
            chat_type = (ignoring_case c.chat_type routing.chat_type).0 b;
            chat_id = (exactly c.chat_id routing.chat_id).0 i;
            sender_id = (exactly c.sender_id routing.sender_id).0 j;
          },
      λ m. four.1 (
        (ignoring_case c.gateway gateway).1 m.gateway,
        (ignoring_case c.chat_type routing.chat_type).1 m.chat_type,
        (exactly c.chat_id routing.chat_id).1 m.chat_id,
        (exactly c.sender_id routing.sender_id).1 m.sender_id,
      ),
    )

-- A rule serves a message if the message meets it and its agent is loaded.
abbrev pub Serves :
    List (String × Option AccessConfig) → String → RoutingContext → RoutingRule → Type 0
Serves agents gateway routing rule =
    Meets rule.match_conditions gateway routing
    × (access : Option AccessConfig) × (lookup_entry rule.agent agents ≡ some access)

-- The first rule that serves the message has the agent.
abbrev pub FirstServes :
    List (String × Option AccessConfig)
    → String
    → RoutingContext
    → List RoutingRule
    → String
    → Type 0
FirstServes agents gateway routing rules agent =
    (before : List RoutingRule) × (rule : RoutingRule) × (after : List RoutingRule) × (rules
      ≡ before ++ rule ∷ after)
    × (rule.agent ≡ agent)
    × Serves agents gateway routing rule
    × All (λ (r : RoutingRule). ¬ Serves agents gateway routing r) before

module _ (agents : List (String × Option AccessConfig)) (gateway : String)
    (routing : RoutingContext) where
  loaded_iff :
      (found : Option (Option AccessConfig))
      → (is_loaded found ≡ true) ↔ ((access : Option AccessConfig) × (found ≡ some access))
  loaded_iff none = (λ h. absurd (ground (arith, h)), λ (a, e). absurd (ground (arith, e)))
  loaded_iff (some access) = (λ h. (access, refl), λ h. refl)

  Serves-iff :
      (rule : RoutingRule)
      → (matches_rule rule.match_conditions gateway routing
            && is_loaded (lookup_entry rule.agent agents)
          ≡ true)
        ↔ Serves agents gateway routing rule
  Serves-iff rule =
      let m = matches_rule_iff rule.match_conditions gateway routing in
      let l = loaded_iff (lookup_entry rule.agent agents) in
      (
        λ h. let (access, e) = l.0 (ground (arith, h)) in (m.0 (ground (arith, h)), access, e),
        λ (a, access, e). let a' = m.1 a in let b' = l.1 (access, e) in ground (arith, a', b'),
      )

  first-served :
      (rules : List RoutingRule) (agent : String)
      → resolve_agent agents rules gateway routing ≡ some agent
      → FirstServes agents gateway routing rules agent
  unfolding resolve_agent
  first-served [] agent h = absurd (ground (arith, h))
  first-served (rule ∷ rules) agent h =
      elim (Bool-cases (
        matches_rule rule.match_conditions gateway routing
        && is_loaded (lookup_entry rule.agent agents))) [
          | inl e ↦
              let h' : some rule.agent ≡ some agent = rw e at h in
              ([], rule, rules, refl, ground (arith, h'), (Serves-iff rule).0 e, tt)
          | inr e ↦
              let h' : resolve_agent agents rules gateway routing ≡ some agent = rw e at h in
              let (before, r, after, s, a, m, n) = first-served rules agent h' in
              (
                rule ∷ before,
                r,
                after,
                ap (λ l. rule ∷ l) s,
                a,
                m,
                ((λ x. let t = (Serves-iff rule).1 x in absurd (ground (arith, e, t))), n),
              )
        ]

  served-first :
      (before : List RoutingRule) (rule : RoutingRule) (after : List RoutingRule)
      → Serves agents gateway routing rule
      → All (λ (r : RoutingRule). ¬ Serves agents gateway routing r) before
      → resolve_agent agents (before ++ rule ∷ after) gateway routing ≡ some rule.agent
  unfolding resolve_agent
  served-first [] rule after m n = rw ((Serves-iff rule).1 m) refl
  served-first (r ∷ before) rule after m (unmet, n) =
      elim (Bool-cases (
        matches_rule r.match_conditions gateway routing
        && is_loaded (lookup_entry r.agent agents))) [
          | inl e ↦ absurd (unmet ((Serves-iff r).0 e))
          | inr e ↦ rw e (served-first before rule after m n)
        ]

  -- A message goes to an agent exactly if the first rule that the message meets and whose agent is loaded
  -- names this agent.
  pub resolve_agent_iff :
      (rules : List RoutingRule) (agent : String)
      → (resolve_agent agents rules gateway routing ≡ some agent)
        ↔ FirstServes agents gateway routing rules agent
  resolve_agent_iff rules agent = (
    first-served rules agent,
    λ (before, rule, after, s, a, m, n). rw (s, ← a) (served-first before rule after m n),
  )
