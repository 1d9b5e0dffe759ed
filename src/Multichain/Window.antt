-- ===== src/Multichain/Window.antt =====
-- The inbox of crates/vtt-multichain/src/messaging.rs against its contract: a log of all ids that
-- were accepted, of which the last ones are refused.
use vtt.Prelude.{
  ℕ, zero, suc, ◌-◌, ◌<◌, ◌≤◌, ◌≡◌, refl, sym, ap, subst, ◌∙◌, List, [], ◌∷◌, ◌++◌, true, false,
  arith, leb, if◌then◌else◌, length, length-append, Bool-cases, inl, inr,
}
use vtt.Prelude.Keys.{nat_key}
use vtt.Prelude.Sets.{contains, set_insert, set_remove, IsNodup, set_insert-IsNodup}
use vtt.Prelude.Outcome.{Outcome, ok, err}
use vtt.Multichain.Messaging.{
  CrossChainMessage, MessageInbox, MessagingError, MessageStatus, receive, remember, forget_oldest,
}

-- A list less its first members.
unfoldable pub drop : ℕ → List ℕ → List ℕ
drop zero xs = xs
drop (suc n) [] = []
drop (suc n) (x ∷ xs) = drop n xs

-- The last members of a list.
unfoldable pub latest : ℕ → List ℕ → List ℕ
unfolding drop
latest n log = drop (length log - n) log

length-drop : (n : ℕ) (xs : List ℕ) → length (drop n xs) ≡ length xs - n
unfolding drop
length-drop zero xs = omega arith
length-drop (suc n) [] = omega arith
length-drop (suc n) (x ∷ xs) = omega (arith, length-drop n xs)

length-latest :
    (n : ℕ) (log : List ℕ) → length (latest n log) ≡ (if leb n (length log) then n else length log)
unfolding latest
length-latest n log = ground (arith, length-drop (length log - n) log)

-- Less all but one of its first members.
tail-drop :
    (n x : ℕ) (xs : List ℕ)
    → n < length xs
    → (y : ℕ) × (ys : List ℕ) × (drop n xs ≡ y ∷ ys) × (drop (suc n) (xs ++ x ∷ []) ≡ ys ++ x ∷ [])
unfolding drop
tail-drop n x [] h = absurd (omega arith)
tail-drop zero x (y ∷ ys) h = (y, ys, refl, refl)
tail-drop (suc n) x (y ∷ ys) h = tail-drop n x ys (omega arith)

-- One member more, while fewer than `n` are listed and once there are as many.
latest-append_few :
    (n x : ℕ) (log : List ℕ) → length log < n → latest n (log ++ x ∷ []) ≡ latest n log ++ x ∷ []
unfolding latest drop
latest-append_few n x log h =
    let longer = length-append log (x ∷ []) in
    let none_before : length log - n ≡ 0 = omega arith in
    let none_after : length (log ++ x ∷ []) - n ≡ 0 = omega (arith, longer) in
    ap (λ k. drop k (log ++ x ∷ [])) none_after ∙ sym (ap (λ k. drop k log ++ x ∷ []) none_before)

latest-append_full :
    (n x : ℕ) (log : List ℕ)
    → 0 < n
    → n ≤ length log
    → (y : ℕ) × (ys : List ℕ) × (latest n log ≡ y ∷ ys) × (latest n (log ++ x ∷ []) ≡ ys ++ x ∷ [])
unfolding latest
latest-append_full n x log p h =
    let (y, ys, e, e') = tail-drop (length log - n) x log (omega arith) in
    let step : length (log ++ x ∷ []) - n ≡ suc (length log - n) =
      omega (arith, length-append log (x ∷ [])) in
    (y, ys, e, ap (λ k. drop k (log ++ x ∷ [])) step ∙ e')

-- The window of the inbox holds the last ids that were accepted, no id twice.
abbrev pub IsWindow : List ℕ → MessageInbox → Type 0
IsWindow log t =
    (0 < t.processed_cap)
    × (t.processed_order ≡ latest t.processed_cap log)
    × (t.processed ≡ t.processed_order)
    × IsNodup t.processed

set_remove-fresh : (x : ℕ) (xs : List ℕ) → contains x xs ≡ false → set_remove x xs ≡ xs
unfolding contains set_remove
set_remove-fresh x [] h = refl
set_remove-fresh x (y ∷ ys) h = ground (arith, set_remove-fresh x ys)

set_remove-head : (x : ℕ) (xs : List ℕ) → IsNodup (x ∷ xs) → set_remove x (x ∷ xs) ≡ xs
unfolding set_remove
set_remove-head x xs h = ground (arith, set_remove-fresh x xs h.0)

-- The contract: an id among the last `processed_cap` that were accepted is refused, and so is any
-- message when the queue is full; the log grows by an id that is accepted.
unfoldable pub verdict :
    CrossChainMessage → List ℕ → MessageInbox → Outcome MessagingError (Unit {0})
verdict msg log t =
    if contains msg.id (latest t.processed_cap log)
    then err (MessagingError.already_processed msg.id)
    else if leb t.pending_cap (length t.pending_messages)
    then err (MessagingError.inbox_full t.pending_cap)
    else ok tt

unfoldable pub log_after : CrossChainMessage → List ℕ → Outcome MessagingError (Unit {0}) → List ℕ
log_after msg log r = elim r [ ok _ ↦ log ++ msg.id ∷ [] | err _ ↦ log | Outcome.panic ↦ log ]

set_insert-fresh : (x : ℕ) (xs : List ℕ) → contains x xs ≡ false → set_insert x xs ≡ xs ++ x ∷ []
unfolding set_insert
set_insert-fresh x xs h = ground arith

contains-tail : (x y : ℕ) (ys : List ℕ) → contains x (y ∷ ys) ≡ false → contains x ys ≡ false
unfolding contains
contains-tail x y ys h = ground arith

-- A window that is not full grows by an id that is not in it.
grown :
    (id n : ℕ) (log : List ℕ) {order : List ℕ}
    → order ≡ latest n log
    → IsNodup order
    → contains id order ≡ false
    → length order < n
    → (order ++ id ∷ [] ≡ latest n (log ++ id ∷ []))
      × (set_insert id order ≡ order ++ id ∷ [])
      × IsNodup (set_insert id order)
grown id n log {order} is nodup fresh room =
    let small : length log < n = ground (arith, length-latest n log, ap length is) in
    (
      ap (λ xs. xs ++ id ∷ []) is ∙ sym (latest-append_few n id log small),
      set_insert-fresh id order fresh,
      set_insert-IsNodup id order nodup,
    )

-- A full window loses its first id.
slid :
    (id n : ℕ) (log : List ℕ) {order : List ℕ}
    → 0 < n
    → order ≡ latest n log
    → IsNodup order
    → contains id order ≡ false
    → n ≤ length order
    → (y : ℕ) × (ys : List ℕ) × (order ≡ y ∷ ys)
      × (ys ++ id ∷ [] ≡ latest n (log ++ id ∷ []))
      × (set_insert id (set_remove y order) ≡ ys ++ id ∷ [])
      × IsNodup (set_insert id (set_remove y order))
slid id n log {order} p is nodup fresh full =
    let long : n ≤ length log = ground (arith, length-latest n log, ap length is) in
    let (y, ys, e, e') = latest-append_full n id log p long in
    let at : order ≡ y ∷ ys = is ∙ e in
    let rest : set_remove y order ≡ ys =
      ap (set_remove y) at ∙ set_remove-head y ys (subst IsNodup at nodup) in
    let missing : contains id ys ≡ false =
      ground (arith, contains-tail id y ys, ap (contains id) at) in
    (
      y,
      ys,
      at,
      sym e',
      ap (set_insert id) rest ∙ set_insert-fresh id ys missing,
      subst (λ xs. IsNodup (set_insert id xs)) (sym rest)
          (set_insert-IsNodup id ys (subst IsNodup at nodup).1),
    )

remember-room :
    (id : ℕ) (t : MessageInbox)
    → leb t.processed_cap (length t.processed) ≡ false
    → remember id t ≡ record t {
      processed = set_insert id t.processed;
      processed_order = t.processed_order ++ id ∷ [];
    }
unfolding remember
remember-room id t h =
    ap
      (λ full.
        let t' = if full then forget_oldest t.processed_order t else t in
        record t' {
          processed = set_insert id t'.processed;
          processed_order = t'.processed_order ++ id ∷ [];
        })
      h

remember-full :
    (id y : ℕ) (ys : List ℕ) (t : MessageInbox)
    → leb t.processed_cap (length t.processed) ≡ true
    → t.processed_order ≡ y ∷ ys
    → remember id t ≡ record t {
      processed = set_insert id (set_remove y t.processed);
      processed_order = ys ++ id ∷ [];
    }
unfolding remember forget_oldest
remember-full id y ys t h at =
    ap
      (λ full.
        let t' = if full then forget_oldest t.processed_order t else t in
        record t' {
          processed = set_insert id t'.processed;
          processed_order = t'.processed_order ++ id ∷ [];
        })
      h
    ∙ ap
        (λ order.
          let t' = forget_oldest order t in
          record t' {
            processed = set_insert id t'.processed;
            processed_order = t'.processed_order ++ id ∷ [];
          })
        at

-- What is remembered keeps the window.
remember-IsWindow :
    (id : ℕ) (log : List ℕ) (t : MessageInbox)
    → IsWindow log t
    → contains id t.processed ≡ false
    → IsWindow (log ++ id ∷ []) (remember id t)
remember-IsWindow id log t (p, order, same, nodup) fresh =
    let nodup' = subst IsNodup same nodup in
    let fresh' = ap (contains id) (sym same) ∙ fresh in
    elim (Bool-cases (leb t.processed_cap (length t.processed))) [
      | inl full ↦
          let (y, ys, at, w, i, n) =
            slid id t.processed_cap log p order nodup' fresh' (ground (arith, ap length same)) in
          subst (IsWindow (log ++ id ∷ [])) (sym (remember-full id y ys t full at)) (
            p,
            w,
            ap (λ xs. set_insert id (set_remove y xs)) same ∙ i,
            subst (λ xs. IsNodup (set_insert id (set_remove y xs))) (sym same) n,
          )
      | inr room ↦
          let (w, i, n) =
            grown id t.processed_cap log order nodup' fresh' (ground (arith, ap length same)) in
          subst (IsWindow (log ++ id ∷ [])) (sym (remember-room id t room)) (
            p,
            w,
            ap (set_insert id) same ∙ i,
            subst (λ xs. IsNodup (set_insert id xs)) (sym same) n,
          )
    ]

receive-old :
    (msg : CrossChainMessage) (t : MessageInbox)
    → contains msg.id t.processed ≡ true
    → receive msg t ≡ (err (MessagingError.already_processed msg.id), t)
unfolding receive
receive-old msg t old = ground arith

receive-crowded :
    (msg : CrossChainMessage) (t : MessageInbox)
    → contains msg.id t.processed ≡ false
    → leb t.pending_cap (length t.pending_messages) ≡ true
    → receive msg t ≡ (err (MessagingError.inbox_full t.pending_cap), t)
unfolding receive
receive-crowded msg t new full = ground arith

receive-new :
    (msg : CrossChainMessage) (t : MessageInbox)
    → contains msg.id t.processed ≡ false
    → leb t.pending_cap (length t.pending_messages) ≡ false
    → receive msg t ≡ (
      ok tt,
      remember msg.id (record t {
        pending_messages =
            t.pending_messages ++ record msg { status = MessageStatus.delivered } ∷ [];
      }),
    )
unfolding receive
receive-new msg t new room = ground arith

-- The contract holds where the call and the contract are known.
conclude :
    (msg : CrossChainMessage) (log : List ℕ) (t : MessageInbox)
    {r : Outcome MessagingError (Unit {0})} {t' : MessageInbox}
    → receive msg t ≡ (r, t')
    → verdict msg log t ≡ r
    → IsWindow (log_after msg log r) t'
    → ((receive msg t).0 ≡ verdict msg log t)
      × IsWindow (log_after msg log (verdict msg log t)) (receive msg t).1
conclude msg log t {r} {t'} called is window = (
  ap (λ x. x.0) called ∙ sym is,
  subst (λ x. IsWindow (log_after msg log (verdict msg log t)) x.1) (sym called)
      (subst (λ o. IsWindow (log_after msg log o) t') (sym is) window),
)

-- `receive` implements the contract on every branch: while the window holds the last
-- `processed_cap` ids of the log, the call returns what the contract says, and the window then holds
-- the last ids of the log that the contract extends. An id is thus refused as processed exactly
-- while it is among the last `processed_cap` ids that were accepted.
pub receive_refines :
    (msg : CrossChainMessage) (log : List ℕ) (t : MessageInbox)
    → IsWindow log t
    → ((receive msg t).0 ≡ verdict msg log t)
      × IsWindow (log_after msg log (verdict msg log t)) (receive msg t).1
unfolding verdict log_after
receive_refines msg log t (p, order, same, nodup) =
    let seen : contains msg.id t.processed ≡ contains msg.id (latest t.processed_cap log) =
      ap (contains msg.id) (same ∙ order) in
    elim (Bool-cases (contains msg.id t.processed)) [
      | inl old ↦
          conclude msg log t (receive-old msg t old) (ground (arith, seen)) (p, order, same, nodup)
      | inr new ↦ elim (Bool-cases (leb t.pending_cap (length t.pending_messages))) [
        | inl full ↦
            conclude msg log t (receive-crowded msg t new full) (ground (arith, seen))
              (p, order, same, nodup)
        | inr room ↦
            conclude msg log t (receive-new msg t new room) (ground (arith, seen))
              (remember-IsWindow msg.id log _ (p, order, same, nodup) new)
      ]
    ]
