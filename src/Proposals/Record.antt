-- ===== src/Proposals/Record.antt =====
-- packages/core-proposal/src/versions.ts: the history of a proposal.
use ai_client_acquisition_os.Common.{
  ℕ, ◌+◌, ◌≤◌, ◌≡◌, refl, Bool, true, false, List, [], ◌∷◌, ◌++◌, Option, none, some, String,
  ==_iff, find, length, All, if◌then◌else◌, arith, Memᴰ,
}
use ai_client_acquisition_os.Proposals.Schema.{
  GeneratedProposal, ProposalVersion, proposal_version_schema, with_content, has_provenance,
  Proposal, generated_proposal_schema,
}
use ai_client_acquisition_os.Proposals.Versions.{has_number}

-- The versions are numbered one after the other, the first by `n`.
abbrev pub Numbered : ℕ → List ProposalVersion → Type 0
Numbered n [] = Unit
Numbered n (v ∷ versions) = (v.version ≡ n) × Numbered (n + 1) versions

-- The price and the template that a version carries.
abbrev pub HasTerms : ℕ → String → String → ProposalVersion → Type 0
HasTerms amount currency template v =
    (v.amount_paise ≡ amount) × (v.currency ≡ currency) × (v.template_id ≡ template)

pub record IsRecorded (amount : ℕ) (currency : String) (template : String) (p : Proposal)
    : Type 0 where
  pub numbered : Numbered 1 p.versions
  pub counted : length p.versions ≡ p.current_version
  pub some_version : 1 ≤ p.current_version
  pub terms : All (HasTerms amount currency template) p.versions

pub found_last :
    (n m : ℕ) (versions : List ProposalVersion)
    → Numbered n versions
    → 1 ≤ length versions
    → m + 1 ≡ n + length versions
    → (v : ProposalVersion) × (find (has_number m) versions ≡ some v)
      × (v.version ≡ m)
      × Memᴰ v versions
found_last n m [] h l e = absurd (omega (arith, l))
found_last n m (v ∷ []) h l e =
    let here : v.version ≡ m = omega (arith, h.0, e) in
    (v, ground (arith, (==_iff v.version m).1 here), here, Memᴰ.head refl)
found_last n m (v ∷ (w ∷ rest)) h l e =
    let (x, found, number, inside) =
      found_last (n + 1) m (w ∷ rest) h.1 (omega arith) (omega (arith, e)) in
    (x, ground (arith, found, h.0, e), number, Memᴰ.tail inside)

pub All-at {ℓ} : {A : Type ℓ} (P : A → Type 0) (x : A) (xs : List A) → All P xs → Memᴰ x xs → P x
All-at P x [] h m = elim m [ ]
All-at P x (y ∷ ys) h (Memᴰ.head e) = rw e h.0
All-at P x (y ∷ ys) h (Memᴰ.tail m) = All-at P x ys h.1 m

pub All-append {ℓ} :
    {A : Type ℓ} (P : A → Type 0) (x : A) (xs : List A) → All P xs → P x → All P (xs ++ (x ∷ []))
All-append P x [] h p = (p, tt)
All-append P x (y ∷ ys) h p = (h.0, All-append P x ys h.1 p)

pub Numbered-append :
    (n : ℕ) (v : ProposalVersion) (versions : List ProposalVersion)
    → Numbered n versions
    → v.version ≡ n + length versions
    → Numbered n (versions ++ (v ∷ []))
Numbered-append n v [] h e = (omega (arith, e), tt)
Numbered-append n v (w ∷ rest) h e = (h.0, Numbered-append (n + 1) v rest h.1 (omega (arith, e)))

pub length-append_one {ℓ} :
    {A : Type ℓ} (x : A) (xs : List A) → length (xs ++ (x ∷ [])) ≡ length xs + 1
length-append_one x [] = omega arith
length-append_one x (y ∷ ys) = omega (arith, length-append_one x ys)

-- What a version that the schema lets through keeps.
pub schema_kept :
    (v w : ProposalVersion)
    → proposal_version_schema v ≡ some w
    → (w.version ≡ v.version)
      × (w.amount_paise ≡ v.amount_paise)
      × (w.currency ≡ v.currency)
      × (w.template_id ≡ v.template_id)
unfolding proposal_version_schema
schema_kept v w e = kept (generated_proposal_schema v.content) (has_provenance v) e
  where
    kept :
        (content : Option GeneratedProposal) (b : Bool)
        → (if b then with_content v content else none) ≡ some w
        → (w.version ≡ v.version)
          × (w.amount_paise ≡ v.amount_paise)
          × (w.currency ≡ v.currency)
          × (w.template_id ≡ v.template_id)
    kept none true h = cc
    kept (some content) true h = ground arith
    kept content false h = cc
