-- ===== src/AgentExecutors/Keys.antt =====
-- About `_duplicate_key_detector`: which objects it accepts.
use softos_sdd_orchestrator.Prelude.{
  String, true, false, none, List, [], ◌∷◌, ◌==◌, ◌≡◌, ◌⊎◌, refl, sym, ap, ◌∙◌, arith, Bool-cases,
  inl, inr, eq_iff,
}
use softos_sdd_orchestrator.Prelude.Result.{Result, ok, err, ◌>>=◌}
use softos_sdd_orchestrator.Prelude.Order.{true-false}
use softos_sdd_orchestrator.Prelude.Lists.{contains}
use softos_sdd_orchestrator.Prelude.Dict.{Dict, IsDict, lookup, is_key}
use softos_sdd_orchestrator.Prelude.Json.{Json}
use softos_sdd_orchestrator.AgentExecutors.Data.{AgentRegistryError, duplicate_key}
use softos_sdd_orchestrator.AgentExecutors.Parse.{no_duplicates, duplicate_key_detector}

-- None of the keys is among those that were seen.
abbrev IsNew : List String → Dict Json → Type 0
IsNew seen pairs = (k : String) → contains k seen ≡ true → lookup k pairs ≡ none

-- The key stands twice.
abbrev pub IsTwice : String → Dict Json → Type 0
IsTwice key [] = ⊥
IsTwice key ((k, _) ∷ pairs) = ((k ≡ key) × (is_key key pairs ≡ true)) ⊎ IsTwice key pairs

-- The outcomes: the pairs themselves, with no key twice, or a key that stands twice.
pub data IsKeysOf (pairs : Dict Json) : Result AgentRegistryError (Dict Json) → Type 0 where
  different : IsDict pairs → IsKeysOf pairs (ok pairs)
  repeated : (key : String) → IsTwice key pairs → IsKeysOf pairs (err (duplicate_key key))

data Scans (seen : List String) (pairs : Dict Json)
    : Result AgentRegistryError (Dict Json) → Type 0 where
  fresh : IsDict pairs → IsNew seen pairs → Scans seen pairs (ok pairs)
  seen_before :
      (key : String)
      → contains key seen ≡ true
      → is_key key pairs ≡ true
      → Scans seen pairs (err (duplicate_key key))
  twice : (key : String) → IsTwice key pairs → Scans seen pairs (err (duplicate_key key))

scan_more :
    (seen : List String) (k : String) (v : Json) (pairs : Dict Json)
    (result : Result AgentRegistryError (Dict Json))
    → contains k seen ≡ false
    → Scans (k ∷ seen) pairs result
    → Scans seen ((k, v) ∷ pairs) (result >>= λ payload. ok ((k, v) ∷ payload))
unfolding lookup
scan_more seen k v pairs _ unseen (fresh unique new) =
    fresh (new k (ground (arith, eq_iff k k)), unique) still_new
  where
    still_new : IsNew seen ((k, v) ∷ pairs)
    still_new j held = elim (Bool-cases (k == j)) [
      | inl same ↦
          absurd
            (true-false (sym held ∙ ap (λ i. contains i seen) (sym ((eq_iff k j).0 same)) ∙ unseen))
      | inr other ↦ rw other (new j (rw other held))
    ]
scan_more seen k v pairs _ unseen (seen_before key held there) = elim (Bool-cases (k == key)) [
  | inl same ↦ twice key (inl ((eq_iff k key).0 same, there))
  | inr other ↦ seen_before key (rw other at held) (rw (other, is_key) there)
]
scan_more seen k v pairs _ unseen (twice key h) = twice key (inr h)

no_duplicates-Scans :
    (pairs : Dict Json) (seen : List String) → Scans seen pairs (no_duplicates seen pairs)
unfolding no_duplicates lookup
no_duplicates-Scans [] seen = fresh tt (λ k held. refl)
no_duplicates-Scans ((k, v) ∷ pairs) seen = elim (Bool-cases (contains k seen)) [
  | inl held ↦ rw held (seen_before k held (here k v pairs))
  | inr unseen ↦
      rw unseen (scan_more seen k v pairs _ unseen (no_duplicates-Scans pairs (k ∷ seen)))
]
  where
    here : (j : String) (w : Json) (rest : Dict Json) → is_key j ((j, w) ∷ rest) ≡ true
    here j w rest = rw ((eq_iff j j).1 refl, is_key) refl

-- Whatever pairs an object has, the detector gives them back as they are when no key stands twice, and
-- otherwise refuses with a key that does.
pub duplicate_key_detector_outcome :
    (pairs : Dict Json) → IsKeysOf pairs (duplicate_key_detector pairs)
unfolding duplicate_key_detector
duplicate_key_detector_outcome pairs =
    of_scan (no_duplicates [] pairs) (no_duplicates-Scans pairs [])
  where
    of_scan : (r : Result AgentRegistryError (Dict Json)) → Scans [] pairs r → IsKeysOf pairs r
    of_scan _ (fresh unique _) = different unique
    of_scan _ (seen_before key held _) = absurd (ground (arith, held))
    of_scan _ (twice key h) = repeated key h
