-- ===== src/Proxy/ConnectionState/Batches.antt =====
-- Batches of statements: `apply_query` of scry-proxy/src/proxy/connection_state.rs over
-- `CommandDetector::split_statements` and `CommandDetector::classify`.
use scry_proxy.Base.{
  ◌≡◌, refl, ap, sym, ◌∙◌, Bool, true, false, List, [], ◌∷◌, ◌++◌, arith, Bytes, trim, to_uppercase,
}
use scry_proxy.Protocol.CommandDetector.{
  DetectedCommand, discard_all, CommandClass, clean, stateful, unknown, Outcome, gives, panics,
  classify, split_statements,
}
use scry_proxy.Protocol.CommandDetector.Classify.{opens_first, classify_gives}
use scry_proxy.Proxy.ConnectionState.{
  ConnectionState, is_pinned, has_unsafe_state, apply_command, apply_class, mark_unknown_command,
  apply_single_statement, apply_statements, apply_query, and_then, with_class,
}

abbrev pub discards : CommandClass → Bool
discards (stateful discard_all) = true
discards other = false

apply_command_unknown :
    (c : DetectedCommand) (s : ConnectionState)
    → s.unknown_command ≡ true
    → discards (stateful c) ≡ false
    → (apply_command c s).unknown_command ≡ true
unfolding apply_command
apply_command_unknown c s u d = ground arith

apply_class_unknown :
    (c : CommandClass) (s : ConnectionState)
    → s.unknown_command ≡ true
    → discards c ≡ false
    → (apply_class c s).unknown_command ≡ true
unfolding apply_class mark_unknown_command
apply_class_unknown clean s u d = u
apply_class_unknown unknown s u d = refl
apply_class_unknown (stateful c) s u d = apply_command_unknown c s u d

abbrev pub outcome_discards : Outcome CommandClass → Bool
outcome_discards (gives c) = discards c
outcome_discards panics = false

-- Each statement's first `)` stands after its first `(`.
abbrev pub AllOpenFirst : List Bytes → Type 0
AllOpenFirst [] = Unit
AllOpenFirst (q ∷ qs) = (opens_first (to_uppercase (trim q)) ≡ true) × AllOpenFirst qs

-- No statement is `DISCARD ALL`.
abbrev pub NoneDiscards : List Bytes → Type 0
NoneDiscards [] = Unit
NoneDiscards (q ∷ qs) = (outcome_discards (classify q) ≡ false) × NoneDiscards qs

abbrev pub EndsWith : (ConnectionState → Type 0) → Outcome ConnectionState → Type 0
EndsWith P o = (s : ConnectionState) × (o ≡ gives s) × P s

apply_single_statement-classify :
    (q : Bytes) (c : CommandClass) (s : ConnectionState)
    → classify q ≡ gives c
    → apply_single_statement q s ≡ gives (apply_class c s)
unfolding apply_single_statement
apply_single_statement-classify q c s e = ap (with_class s) e

apply_statements-cons :
    (q : Bytes) (qs : List Bytes) (c : CommandClass) (s : ConnectionState)
    → classify q ≡ gives c
    → apply_statements (q ∷ qs) s ≡ apply_statements qs (apply_class c s)
unfolding apply_statements
apply_statements-cons q qs c s e =
    ap (λ o. and_then o (apply_statements qs)) (apply_single_statement-classify q c s e)

keeps_unknown :
    (qs : List Bytes) (s : ConnectionState)
    → s.unknown_command ≡ true
    → AllOpenFirst qs
    → NoneDiscards qs
    → EndsWith (λ s'. s'.unknown_command ≡ true) (apply_statements qs s)
unfolding apply_statements
keeps_unknown [] s u a k = (s, refl, u)
keeps_unknown (q ∷ qs) s u a k =
    let (c, e) = classify_gives q a.0 in
    let (s', e', u') =
      keeps_unknown qs (apply_class c s)
        (apply_class_unknown c s u (sym (ap outcome_discards e) ∙ k.0)) a.1 k.1 in
    (s', apply_statements-cons q qs c s e ∙ e', u')

split_at_unknown :
    (before after : List Bytes) (q : Bytes) (s : ConnectionState)
    → AllOpenFirst before
    → AllOpenFirst after
    → classify q ≡ gives unknown
    → NoneDiscards after
    → EndsWith (λ s'. s'.unknown_command ≡ true) (apply_statements (before ++ q ∷ after) s)
unfolding apply_class mark_unknown_command
split_at_unknown [] after q s b a u k =
    let (s', e', u') = keeps_unknown after (mark_unknown_command s) refl a k in
    (s', apply_statements-cons q after unknown s u ∙ e', u')
split_at_unknown (p ∷ before) after q s b a u k =
    let (c, e) = classify_gives p b.0 in
    let (s', e', u') = split_at_unknown before after q (apply_class c s) b.1 a u k in
    (s', apply_statements-cons p (before ++ q ∷ after) c s e ∙ e', u')

unknown-pinned :
    (s : ConnectionState)
    → s.unknown_command ≡ true
    → (is_pinned s ≡ true) × (has_unsafe_state s ≡ true)
unfolding is_pinned has_unsafe_state
unknown-pinned s u = ground arith

apply_query-split :
    (query q : Bytes) (before after : List Bytes) (s : ConnectionState)
    → split_statements query ≡ before ++ q ∷ after
    → apply_query query s ≡ apply_statements (before ++ q ∷ after) s
unfolding apply_query apply_statements
apply_query-split query q [] after s e = rw (apply_query, e) refl
apply_query-split query q (p ∷ before) after s e = rw (apply_query, e) refl

-- Fail closed: when one statement of a batch is unknown to the detector and no later statement is classified as
-- `DISCARD ALL`, then the whole batch is applied and the connection ends up pinned, with unsafe state.
-- Condition: the first `)` of every other statement stands after its first `(`.
pub apply_query_fails_closed :
    (query : Bytes) (before after : List Bytes) (q : Bytes) (s : ConnectionState)
    → split_statements query ≡ before ++ q ∷ after
    → AllOpenFirst before
    → AllOpenFirst after
    → classify q ≡ gives unknown
    → NoneDiscards after
    → EndsWith (λ s'. (is_pinned s' ≡ true) × (has_unsafe_state s' ≡ true)) (apply_query query s)
apply_query_fails_closed query before after q s e b a u k =
    let (s', e', u') = split_at_unknown before after q s b a u k in
    (s', apply_query-split query q before after s e ∙ e', unknown-pinned s' u')
