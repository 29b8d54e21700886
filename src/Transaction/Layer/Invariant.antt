-- ===== src/Transaction/Layer/Invariant.antt =====
-- The tables of the transaction layer, whatever happens to it.
use sim_ims.Prelude.{
  ℕ, ◌≤◌, ◌≡◌, refl, ◌⊎◌, inl, inr, Bool, true, false, Option, none, some, [], arith, Bool-cases,
  Option-cases, ◌==◌, ==-iff,
}
use sim_ims.Prelude.Text.{Text, text_instance, nat_eq}
use sim_ims.Prelude.Table.{find, insert, erase, IsKeyed, find-insert, find-erase, erase-IsKeyed}
use sim_ims.Transaction.Server.{
  ServerTransaction, Section, section, records, starts, acknowledges, timer_h_expires,
  timer_j_expires, shuts_down, sets_callback,
}
use sim_ims.Transaction.Layer.{TransactionLayer, Object, on_server_terminated, server_section}

-- The object of a table entry has the entry's key, has its callback, and has not ended.
abbrev pub IsLive : Text → Option Object → Type 0
IsLive key none = ⊥
IsLive key (some o) = (o.0 ≡ key) × (o.1.on_terminated ≡ true) × (o.1.termination_notified ≡ false)

-- Each table has a key once, each entry of the server table is live, new identities are fresh,
-- and nothing is left after a shutdown.
pub record IsValid (s : TransactionLayer) : Type 0 where
  pub clients : IsKeyed s.client_txns
  pub servers : IsKeyed s.server_txns
  pub live : (key : Text) (id : ℕ) → find s.server_txns key ≡ some id → IsLive key (find s.heap id)
  pub emptied : s.shutting_down ≡ true → (s.client_txns ≡ []) × (s.server_txns ≡ [])
  pub fresh : (id : ℕ) → s.next_id ≤ id → find s.heap id ≡ none

-- The sections that responses, ACKs and timers run; the two others are the layer's own.
abbrev pub is_use : Section → Bool
is_use shuts_down = false
is_use (sets_callback callback) = false
is_use _ = true

section_live :
    (c : Section) (t : ServerTransaction)
    → is_use c ≡ true
    → (t.on_terminated ≡ true → (section c t).0.on_terminated ≡ true)
      × ((section c t).1 ≡ false
          → t.on_terminated ≡ true
          → t.termination_notified ≡ false
          → (section c t).0.termination_notified ≡ false)
unfolding section
section_live (records code copy) t used = ground arith
section_live (starts final_code) t used = ground arith
section_live acknowledges t used = ground arith
section_live timer_h_expires t used = ground arith
section_live timer_j_expires t used = ground arith
section_live shuts_down t used = ground (arith, used)
section_live (sets_callback callback) t used = ground (arith, used)

-- An object changes; it stays live if it is in the table.
kept-IsValid :
    (s : TransactionLayer) (id : ℕ) (key : Text) (t u : ServerTransaction)
    → IsValid s
    → find s.heap id ≡ some (key, t)
    → (find s.server_txns key ≡ some id → IsLive key (some (key, u)))
    → IsValid (record s { heap = insert s.heap id (key, u) })
kept-IsValid s id key t u v here remains = record {
  clients = v.clients;
  servers = v.servers;
  live = λ k i e. elim (Bool-cases (id == i)) [
    | inl same ↦
        let is_id = (==-iff id i).0 same in
        let old = v.live k i e in
        ground (arith, is_id, e, find-insert s.heap id i (key, u), old, here, remains)
    | inr differs ↦ rw (find-insert s.heap id i (key, u), differs) (v.live k i e)
  ];
  emptied = v.emptied;
  fresh = λ i h. ground (arith, ==-iff id i, find-insert s.heap id i (key, u), v.fresh i h, here);
}

erased_live :
    (s : TransactionLayer) (id : ℕ) (key : Text) (t u : ServerTransaction)
    → IsValid s
    → find s.heap id ≡ some (key, t)
    → (k : Text) (i : ℕ) → find (erase s.server_txns key) k ≡ some i
    → IsLive k (find (insert s.heap id (key, u)) i)
erased_live s id key t u v here k i e = elim (Bool-cases (key == k)) [
  | inl same ↦ ground (arith, same, e, find-erase s.server_txns key k)
  | inr other ↦
      let remained : find s.server_txns k ≡ some i =
        ground (arith, other, e, find-erase s.server_txns key k) in
      let old = v.live k i remained in
      ground (arith, ==-iff key k, other, ==-iff id i, find-insert s.heap id i (key, u), old, here)
]

-- It leaves the table.
erased-IsValid :
    (s : TransactionLayer) (id : ℕ) (key : Text) (t u : ServerTransaction)
    → IsValid s
    → find s.heap id ≡ some (key, t)
    → IsValid (record s { server_txns = erase s.server_txns key; heap = insert s.heap id (key, u) })
unfolding erase
erased-IsValid s id key t u v here = record {
  clients = v.clients;
  servers = erase-IsKeyed s.server_txns key v.servers;
  live = λ k i e. erased_live s id key t u v here k i e;
  emptied = λ stopped. ((v.emptied stopped).0, rw (v.emptied stopped).1 refl);
  fresh = λ i h. ground (arith, ==-iff id i, find-insert s.heap id i (key, u), v.fresh i h, here);
}

on_server_terminated-cases :
    (s : TransactionLayer) (id : ℕ) (key : Text)
    → ((on_server_terminated id key s ≡ s)
        × (find s.server_txns key ≡ some id → s.shutting_down ≡ true))
      ⊎ (on_server_terminated id key s ≡ (record s { server_txns = erase s.server_txns key }))
unfolding on_server_terminated
on_server_terminated-cases s id key = ground (arith, ==-iff id id)

on_server_terminated-IsValid :
    (s : TransactionLayer) (id : ℕ) (key : Text) (t u : ServerTransaction)
    → IsValid s
    → find s.heap id ≡ some (key, t)
    → IsValid (on_server_terminated id key (record s { heap = insert s.heap id (key, u) }))
unfolding find
on_server_terminated-IsValid s id key t u v here =
    elim (on_server_terminated-cases (record s { heap = insert s.heap id (key, u) }) id key) [
      | inl (stays, absent) ↦ rw stays (
          kept-IsValid s id key t u v here
            (λ e. let stopped = absent e in ground (arith, e, v.emptied stopped)))
      | inr leaves ↦ rw leaves (erased-IsValid s id key t u v here)
    ]

-- A live object's section keeps it live, or ends it.
pub server_section-IsValid :
    (c : Section) (id : ℕ) (s : TransactionLayer)
    → is_use c ≡ true
    → IsValid s
    → IsValid (server_section c id s)
unfolding server_section
server_section-IsValid c id s used v = elim (Option-cases (find s.heap id)) [
  | inl absent ↦ rw (absent, server_section) v
  | inr ((key, t), e) ↦ elim (Bool-cases (section c t).1) [
    | inl ends ↦
        rw (e, server_section, ends) (on_server_terminated-IsValid s id key t (section c t).0 v e)
    | inr stays ↦
        rw (e, server_section, stays)
          (kept-IsValid s id key t (section c t).0 v e (λ f.
            let step = section_live c t used in
            let old = v.live key id f in ground (arith, step, old, e, stays)))
  ]
]
