-- ===== src/Payments/Webhook/RefNo.antt =====
-- modules/payments/src/services/payment-webhook.service.ts: the loop of
-- `generateUniqueWalletRefNo`.
use nest_js_project.Prelude.{
  ℕ, suc, ◌≡◌, ◌≢◌, refl, sym, ap, ◌∙◌, ◌≤◌, ◌<◌, Bool, true, false, not, Bool-cases, inl, inr,
  Option-cases, none, some, List, [], ◌∷◌, map, String, ◌===◌, eq_of_text_beq, is_some, find_one,
  find_all, length, All, arith,
}
use nest_js_project.Schema.{WalletTransaction, Database}
use nest_js_project.Payments.Webhook.Wallets.{
  WebhookRuntime, has_ref_no, first_fresh, wallet_ref_no, generate_unique_wallet_ref_no,
}

-- No text occurs twice.
abbrev pub Distinct : List String → Type 0
Distinct [] = Unit
Distinct (s ∷ ss) = All (λ t. (s === t) ≡ false) ss × Distinct ss

other_text : (a r q : String) → a ≡ r → (r === q) ≡ false → (a === q) ≡ false
other_text a r q e h = rw e h

length-refs : (ref_no : ℕ → String) (ds : List ℕ) → length (map ref_no ds) ≡ length ds
length-refs ref_no [] = refl
length-refs ref_no (d ∷ ds) = ap suc (length-refs ref_no ds)

module _ {W : Type 0} where
  abbrev taken : List (WalletTransaction W) → String → Bool
  taken rows ref_no = is_some (find_one (λ t. t.ref_no === ref_no) rows)

  abbrev without : String → List (WalletTransaction W) → List (WalletTransaction W)
  without ref_no = find_all (λ t. not (t.ref_no === ref_no))

  length-without :
      (r : String) (rows : List (WalletTransaction W)) → length (without r rows) ≤ length rows
  length-without r [] = omega arith
  length-without r (t ∷ ts) = elim (Bool-cases (t.ref_no === r)) [
    | inl hit ↦ rw hit (omega (arith, length-without r ts))
    | inr miss ↦ rw miss (omega (arith, length-without r ts))
  ]

  length-without_lt :
      (r : String) (rows : List (WalletTransaction W))
      → taken rows r ≡ true
      → length (without r rows) < length rows
  length-without_lt r [] h = cc
  length-without_lt r (t ∷ ts) h = elim (Bool-cases (t.ref_no === r)) [
    | inl hit ↦ rw hit (omega (arith, length-without r ts))
    | inr miss ↦ rw miss (ground (arith, length-without_lt r ts))
  ]

  taken-without :
      (r q : String) (rows : List (WalletTransaction W))
      → (r === q) ≡ false
      → taken (without r rows) q ≡ taken rows q
  taken-without r q [] h = refl
  taken-without r q (t ∷ ts) h = elim (Bool-cases (t.ref_no === r)) [
    | inl hit ↦
        rw (hit, other_text t.ref_no r q (eq_of_text_beq t.ref_no r hit) h) (taken-without r q ts h)
    | inr miss ↦ rw miss (ground (arith, taken-without r q ts h))
  ]

  abbrev Taken : List (WalletTransaction W) → List String → Type 0
  Taken rows = All (λ s. taken rows s ≡ true)

  Taken-without :
      (r : String) (rows : List (WalletTransaction W)) (ss : List String)
      → All (λ s. (r === s) ≡ false) ss
      → Taken rows ss
      → Taken (without r rows) ss
  Taken-without r rows [] differ h = h
  Taken-without r rows (s ∷ ss) (d, differ) (h, hs) =
      (taken-without r s rows d ∙ h, Taken-without r rows ss differ hs)

  -- Distinct numbers that are all taken are no more than the rows.
  pigeonhole :
      (rows : List (WalletTransaction W)) (ss : List String)
      → Distinct ss
      → Taken rows ss
      → length ss ≤ length rows
  pigeonhole rows [] distinct h = omega arith
  pigeonhole rows (s ∷ ss) (differ, distinct) (h, hs) = omega (
    arith,
    length-without_lt s rows h,
    pigeonhole (without s rows) ss distinct (Taken-without s rows ss differ hs),
  )

  step_used :
      (db : Database W) (ref_no : ℕ → String) (d : ℕ) (ds : List ℕ)
      → has_ref_no db (ref_no d) ≡ true
      → first_fresh db ref_no (d ∷ ds) ≡ first_fresh db ref_no ds
  unfolding first_fresh
  step_used db ref_no d ds used = rw used refl

  step_fresh :
      (db : Database W) (ref_no : ℕ → String) (d : ℕ) (ds : List ℕ)
      → has_ref_no db (ref_no d) ≡ false
      → first_fresh db ref_no (d ∷ ds) ≡ some (ref_no d)
  unfolding first_fresh
  step_fresh db ref_no d ds fresh = rw fresh refl

  first_fresh-none :
      (db : Database W) (ref_no : ℕ → String) (ds : List ℕ)
      → first_fresh db ref_no ds ≡ none
      → Taken db.wallet_transactions (map ref_no ds)
  first_fresh-none db ref_no [] h = tt
  first_fresh-none db ref_no (d ∷ ds) h = elim (Bool-cases (has_ref_no db (ref_no d))) [
    | inl used ↦ (used, first_fresh-none db ref_no ds (sym (step_used db ref_no d ds used) ∙ h))
    | inr fresh ↦ ground (arith, step_fresh db ref_no d ds fresh)
  ]

  first_fresh-some :
      (db : Database W) (ref_no : ℕ → String) (ds : List ℕ) (found : String)
      → first_fresh db ref_no ds ≡ some found
      → has_ref_no db found ≡ false
  unfolding first_fresh
  first_fresh-some db ref_no [] found h = ground arith
  first_fresh-some db ref_no (d ∷ ds) found h = ground (arith, first_fresh-some db ref_no ds found)

  never_out :
      (db : Database W) (ref_no : ℕ → String) (ds : List ℕ)
      → Distinct (map ref_no ds)
      → length db.wallet_transactions < length ds
      → first_fresh db ref_no ds ≢ none
  never_out db ref_no ds distinct enough never = omega (
    arith,
    pigeonhole db.wallet_transactions (map ref_no ds) distinct
        (first_fresh-none db ref_no ds never),
    length-refs ref_no ds,
  )

  -- Where the reference numbers that are drawn differ from each other, and are more than the rows of
  -- the ledger, the loop ends with one of them that is not in the ledger.
  pub ref_no_loop_ends :
      (rt : WebhookRuntime W) (db : Database W) (client_id actor_id : ℕ)
      → Distinct (map (wallet_ref_no rt db client_id actor_id) rt.draws)
      → length db.wallet_transactions < length rt.draws
      → (ref_no : String) × (generate_unique_wallet_ref_no rt db client_id actor_id ≡ some ref_no)
        × (has_ref_no db ref_no ≡ false)
  unfolding generate_unique_wallet_ref_no
  ref_no_loop_ends rt db client_id actor_id distinct enough =
      let ref_no = wallet_ref_no rt db client_id actor_id in
      elim (Option-cases (first_fresh db ref_no rt.draws)) [
        | inl never ↦ elim (never_out db ref_no rt.draws distinct enough never) [ ]
        | inr (found, e) ↦ (found, e, first_fresh-some db ref_no rt.draws found e)
      ]
