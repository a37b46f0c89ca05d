-- ===== src/Access/Tests.antt =====
-- crates/duragent/src/agent/access_eval.rs at concrete senders.
use agnx.Common.{true, none, ◌≡◌, refl, [], ◌∷◌, Text, codes, sym, ap, ◌∙◌, arith, length}
use mathlib.Core.List.{Memᴰ}
use agnx.Gateway.Queue.{QueueMode, OverflowStrategy}
use agnx.Access.{
  ActivationMode, ContextBufferMode, GroupAccessConfig, SenderDisposition, GroupPolicy,
  resolve_sender_disposition,
}
use agnx.Access.Disposition.{Overrides, AreUnique}
use agnx.Access.Order.{Resolves, resolve-Resolves, SameEntries, resolve_order}

abbrev config : Overrides → GroupAccessConfig
config m = record {
  policy = GroupPolicy.open_;
  allowlist = [];
  sender_default = SenderDisposition.allow;
  sender_overrides = m;
  activation = ActivationMode.mention;
  context_buffer = record {
    mode = ContextBufferMode.silent;
    max_messages = 100;
    max_age_hours = 24;
  };
  queue = record {
    mode = QueueMode.batch;
    max_pending = 10;
    overflow = OverflowStrategy.drop_old;
    reject_message = none;
    debounce = record { enabled = true; window_ms = 1500 };
  };
}

abbrev bots : Text × SenderDisposition
bots = (codes "bot*", SenderDisposition.silent)

abbrev all_senders : Text × SenderDisposition
all_senders = (codes "*", SenderDisposition.passive)

swapped : SameEntries (bots ∷ all_senders ∷ []) (all_senders ∷ bots ∷ [])
swapped o = (
  λ m. elim m [
    | Memᴰ.head e ↦ Memᴰ.tail (Memᴰ.head e)
    | Memᴰ.tail (Memᴰ.head e) ↦ Memᴰ.head e
    | Memᴰ.tail (Memᴰ.tail n) ↦ absurd (elim n [ ])
  ],
  λ m. elim m [
    | Memᴰ.head e ↦ Memᴰ.tail (Memᴰ.head e)
    | Memᴰ.tail (Memᴰ.head e) ↦ Memᴰ.head e
    | Memᴰ.tail (Memᴰ.tail n) ↦ absurd (elim n [ ])
  ],
)

unique : AreUnique (all_senders ∷ bots ∷ [])
unique p d e (Memᴰ.head a) (Memᴰ.head b) = ap (λ o. o.1) a ∙ sym (ap (λ o. o.1) b)
unique p d e (Memᴰ.head a) (Memᴰ.tail (Memᴰ.head b)) =
    absurd (omega (arith, ap (λ o. length o.0) a, ap (λ o. length o.0) b))
unique p d e (Memᴰ.tail (Memᴰ.head a)) (Memᴰ.head b) =
    absurd (omega (arith, ap (λ o. length o.0) a, ap (λ o. length o.0) b))
unique p d e (Memᴰ.tail (Memᴰ.head a)) (Memᴰ.tail (Memᴰ.head b)) =
    ap (λ o. o.1) a ∙ sym (ap (λ o. o.1) b)
unique p d e (Memᴰ.tail (Memᴰ.tail m)) n = elim m [ ]
unique p d e m (Memᴰ.tail (Memᴰ.tail n)) = elim n [ ]

resolve-Resolves_example :
    Resolves
      (config (bots ∷ []))
      (codes "bot7")
      (resolve_sender_disposition (config (bots ∷ [])) (codes "bot7"))
resolve-Resolves_example = resolve-Resolves (config (bots ∷ [])) (codes "bot7")

resolve_order_example :
    resolve_sender_disposition (config (bots ∷ all_senders ∷ [])) (codes "bot7")
    ≡ resolve_sender_disposition (config (all_senders ∷ bots ∷ [])) (codes "bot7")
resolve_order_example =
    resolve_order (config (bots ∷ all_senders ∷ [])) (config (all_senders ∷ bots ∷ []))
      (codes "bot7") refl swapped unique
