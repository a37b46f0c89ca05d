-- ===== src/Context/Truncation.antt =====
-- Masking of tool results in the context: `mask_tool_results` of
-- crates/duragent/src/context/truncation.rs.
-- `placeholder` is the text that `format!` makes of the number of removed tokens.
use agnx.Common.{
  take, drop, ℕ, zero, suc, ◌+◌, ◌-◌, String, Bool, true, false, ◌&&◌, Option, some, List, [], ◌∷◌,
  leb, ◌==◌, if◌then◌else◌, length,
}
use agnx.Session.Message.{Message, ToolCall, Role}
use agnx.Context.{estimate_message_tokens}

abbrev pub is_tool : Message → Bool
is_tool m = elim m.role [ Role.tool ↦ true | _ ↦ false ]

-- `messages[idx]`, changed in place; `idx` is in range where the program uses it.
unfoldable pub update : {A : Type 0} → (A → A) → ℕ → List A → List A
update f i [] = []
update f zero (x ∷ xs) = f x ∷ xs
update f (suc i) (x ∷ xs) = x ∷ update f i xs

-- The indices of the tool messages, counted from `i`.
unfoldable pub tool_indices : ℕ → List Message → List ℕ
tool_indices i [] = []
tool_indices i (m ∷ ms) = let rest = tool_indices (i + 1) ms in if is_tool m then i ∷ rest else rest

module _ (to_json : List ToolCall → Option String) (placeholder : ℕ → String) where
  unfoldable pub mask_message : Message → Message
  mask_message m = record m { content = some (placeholder (estimate_message_tokens to_json m)) }

  unfoldable pub mask_all : List ℕ → List Message → List Message
  mask_all [] ms = ms
  mask_all (i ∷ is) ms = mask_all is (update mask_message i ms)

  unfoldable pub mask_tool_results : List Message → ℕ → ℕ → ℕ → List Message
  mask_tool_results messages conversation_end_idx keep_first keep_last =
      let tool_indices_ = tool_indices conversation_end_idx (drop conversation_end_idx messages) in
      let total = length tool_indices_ in
      if keep_first == 0 && keep_last == 0
      then messages
      else if leb total (keep_first + keep_last)
      then messages
      else let mask_end = total - keep_last in
        mask_all (drop keep_first (take mask_end tool_indices_)) messages
