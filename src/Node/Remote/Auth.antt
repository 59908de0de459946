-- ===== src/Node/Remote/Auth.antt =====
-- The shared token of transport.go: what a connection can do without it.
use capacitor.Prelude.{
  ℕ, suc, ◌≡◌, ◌≢◌, refl, Bool, true, false, Option, none, some, List, [], ◌∷◌, ◌++◌, Text, text_eq,
  text_eq_iff, ℤ, arith, ◌∙◌, sym, Bool-cases, Option-cases, inl, inr,
}
use capacitor.Log.Entry.{LogEntry}
use capacitor.Node.{Platform, Node}
use capacitor.Node.Remote.{Batch, Handshake, admit, apply_remote_entry, apply_entries, handle_conn}

module _ (p : Platform) where
  -- The batch carries a handshake with the token.
  abbrev pub HasToken : Text → Batch → Type 0
  HasToken token batch = (h : Handshake) × (batch.handshake ≡ some h) × (h.auth_token ≡ token)

  admit-first :
      (n : Node p) (batch : Batch)
      → n.auth_token ≢ []
      → ¬ HasToken n.auth_token batch
      → admit p n true batch ≡ none
  unfolding admit
  admit-first n batch secret lacks = go batch.handshake refl
    where
      locked : text_eq n.auth_token [] ≡ false
      locked = ground (arith, text_eq_iff n.auth_token [])

      go : (o : Option Handshake) → batch.handshake ≡ o → admit p n true batch ≡ none
      go none e = ground (arith, e, locked)
      go (some h) e = ground (arith, e, locked, wrong)
        where
          wrong : text_eq h.auth_token n.auth_token ≡ false
          wrong = elim (Bool-cases (text_eq h.auth_token n.auth_token)) [
            | inl t ↦ absurd (lacks (h, e, (text_eq_iff h.auth_token n.auth_token).0 t))
            | inr f ↦ f
          ]

  -- On a node with a token, a connection whose first batch does not carry that token changes nothing,
  -- whatever it sends.
  pub handle_conn_locked :
      (n : Node p) (clock : ℕ → ℤ × ℤ) (batch : Batch) (rest : List ((ℕ → ℤ × ℤ) × Batch))
      → n.auth_token ≢ []
      → ¬ HasToken n.auth_token batch
      → handle_conn p n true ((clock, batch) ∷ rest) ≡ n
  unfolding handle_conn
  handle_conn_locked n clock batch rest secret lacks =
      ground (arith, admit-first n batch secret lacks)

  auth-apply_remote_entry :
      (seen wall : ℤ) (n : Node p) (e : LogEntry p.float.Carrier)
      → (apply_remote_entry p seen wall n e).auth_token ≡ n.auth_token
  unfolding apply_remote_entry
  auth-apply_remote_entry seen wall n e = ground arith

  auth-apply_entries :
      (clock : ℕ → ℤ × ℤ) (i : ℕ) (n : Node p) (entries : List (List ℕ))
      → (apply_entries p clock i n entries).auth_token ≡ n.auth_token
  unfolding apply_entries
  auth-apply_entries clock i n [] = refl
  auth-apply_entries clock i n (raw ∷ rest) = elim (Option-cases (p.codec.unmarshal raw)) [
    | inl q ↦ ground (arith, q, auth-apply_entries clock (suc i) n rest)
    | inr (e, q) ↦
        let n' = apply_remote_entry p (clock i).0 (clock i).1 n e in
        ground (
          arith,
          q,
          auth-apply_entries clock (suc i) n' rest,
          auth-apply_remote_entry (clock i).0 (clock i).1 n e,
        )
  ]

  auth-admit :
      (n n' : Node p) (first_batch : Bool) (batch : Batch)
      → admit p n first_batch batch ≡ some n'
      → n'.auth_token ≡ n.auth_token
  unfolding admit
  auth-admit n n' first_batch batch e = ground arith

  admit-wrong :
      (n : Node p) (first_batch : Bool) (batch : Batch) (h : Handshake)
      → n.auth_token ≢ []
      → batch.handshake ≡ some h
      → h.auth_token ≢ n.auth_token
      → admit p n first_batch batch ≡ none
  unfolding admit
  admit-wrong n first_batch batch h secret e wrong =
      ground (arith, e, text_eq_iff n.auth_token [], text_eq_iff h.auth_token n.auth_token)

  -- On a node with a token, a handshake with another token closes the connection, wherever it comes: the
  -- node ends as if the connection had stopped before that batch.
  pub handle_conn_wrong :
      (n : Node p) (first_batch : Bool) (before rest : List ((ℕ → ℤ × ℤ) × Batch))
      (clock : ℕ → ℤ × ℤ) (batch : Batch) (h : Handshake)
      → n.auth_token ≢ []
      → batch.handshake ≡ some h
      → h.auth_token ≢ n.auth_token
      → handle_conn p n first_batch (before ++ (clock, batch) ∷ rest)
        ≡ handle_conn p n first_batch before
  unfolding handle_conn
  handle_conn_wrong n first_batch [] rest clock batch h secret e wrong =
      ground (arith, admit-wrong n first_batch batch h secret e wrong)
  handle_conn_wrong n first_batch ((c, b) ∷ before) rest clock batch h secret e wrong =
      elim (Option-cases (admit p n first_batch b)) [
        | inl q ↦ ground (arith, q)
        | inr (n', q) ↦
            let n₂ = apply_entries p c 0 n' b.entries in
            let same : n₂.auth_token ≡ n.auth_token =
              auth-apply_entries c 0 n' b.entries ∙ auth-admit n n' first_batch b q in
            ground (
              arith,
              q,
              handle_conn_wrong n₂ false before rest clock batch h (λ z. secret (sym same ∙ z)) e
                  (λ z. wrong (z ∙ same)),
            )
      ]
