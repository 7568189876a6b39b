-- ===== src/Entitlements/Reissue.antt =====
-- packages/core-entitlements/src/reissue.ts, with `mintAccessToken` of accessToken.ts.
use ai_client_acquisition_os.Common.{
  ℕ, ◌+◌, Bool, true, false, not, ◌||◌, List, [], ◌∷◌, none, String, if◌then◌else◌, ◌==◌, ltb, ◌≡◌,
  ◌≢◌, ◌++◌, ap, sym, refl, arith, if_both, ◌⊎◌, ◌<◌, ◌≤◌, inl, inr, Bool-cases,
}
use ai_client_acquisition_os.Common.Text.{is_space, trim, is_blank, utf16_length}
use ai_client_acquisition_os.Catalog.{ProductId}
use ai_client_acquisition_os.Entitlements.Repository.{
  Tables, Entitlement, normalise_email, purchased_from, list_active, save_access_token,
}
use Prim.Native.Char.{code}
use Prim.Native.String as Str

abbrev pub access_token_ttl_ms : ℕ
access_token_ttl_ms = 2592000000

-- How much of `^[^\s@]+@[^\s@]+\.[^\s@]+$` a text has matched.
pub data Scan : Type 0 where
  start local at domain dot done : Scan

-- `@` is 64, `.` is 46. A dot counts once something of the domain stands before it.
scan : Scan → String → Bool
unfolding is_space
scan done Str.[] = true
scan _ Str.[] = false
scan state (Str.◌∷◌ c s) =
    if is_space (code c)
    then false
    else if code c == 64
    then elim state [ local ↦ scan at s | _ ↦ false ]
    else elim state [
      | start ↦ scan local s
      | local ↦ scan local s
      | at ↦ scan domain s
      | domain ↦ scan (if code c == 46 then dot else domain) s
      | dot ↦ scan done s
      | done ↦ scan done s
    ]

-- `EMAIL_PATTERN.test`.
unfoldable pub matches_email_pattern : String → Bool
unfolding scan
matches_email_pattern s = scan start s

pub data ReissueRefusal : Type 0 where
  no_entitlement invalid_email : ReissueRefusal

pub data ReissueOutcome : Type 0 where
  issued : String → ℕ → String → List ProductId → ReissueOutcome
  refused : ReissueRefusal → ReissueOutcome

-- `hash` is SHA-256, `token` the random text that is drawn.
module _ (hash : String → String) where
  abbrev pub issue : String → String → ℕ → Tables → List Entitlement → Tables × ReissueOutcome
  issue token email now db [] = (db, refused no_entitlement)
  issue token email now db (e ∷ entitlements) = (
    save_access_token (hash token) email (now + access_token_ttl_ms) db,
    issued token (now + access_token_ttl_ms) email (purchased_from (e ∷ entitlements)),
  )

  unfoldable pub reissue_access_token : String → String → ℕ → Tables → Tables × ReissueOutcome
  unfolding matches_email_pattern utf16_length
  reissue_access_token token raw_email now db =
      let trimmed = trim raw_email in
      if is_blank trimmed || ltb 320 (utf16_length trimmed) || not (matches_email_pattern trimmed)
      then (db, refused invalid_email)
      else issue token (normalise_email trimmed) now db (list_active db (normalise_email trimmed))

  -- What a re-issue for an address did, by its outcome.
  abbrev pub Reissued : String → Tables → Tables × ReissueOutcome → String → ℕ → Type 0
  Reissued raw_email db (after, refused invalid_email) token now =
      (after ≡ db)
      × ((is_blank (trim raw_email) ≡ true)
          ⊎ (320 < utf16_length (trim raw_email))
          ⊎ (matches_email_pattern (trim raw_email) ≡ false))
  Reissued raw_email db (after, refused no_entitlement) token now =
      (after ≡ db) × (list_active db (normalise_email (trim raw_email)) ≡ [])
  Reissued raw_email db (after, issued shown expires_at email products) token now =
      (email ≡ normalise_email (trim raw_email))
      × (matches_email_pattern (trim raw_email) ≡ true)
      × (utf16_length (trim raw_email) ≤ 320)
      × (shown ≡ token)
      × (expires_at ≡ now + access_token_ttl_ms)
      × (list_active db email ≢ [])
      × (products ≡ purchased_from (list_active db email))
      × (after.entitlements ≡ db.entitlements)
      × (after.tokens
          ≡ db.tokens
            ++ (
              hash token,
              record {
                customer_email = normalise_email (normalise_email (trim raw_email));
                expires_at = now + access_token_ttl_ms;
                revoked_at = none;
              },
            )
              ∷ [])

  abbrev is_unusable : String → Bool
  is_unusable trimmed =
      is_blank trimmed || ltb 320 (utf16_length trimmed) || not (matches_email_pattern trimmed)

  issue-Reissued :
      (token raw_email : String) (now : ℕ) (db : Tables) (entitlements : List Entitlement)
      → is_unusable (trim raw_email) ≡ false
      → list_active db (normalise_email (trim raw_email)) ≡ entitlements
      → Reissued raw_email db
          (issue token (normalise_email (trim raw_email)) now db entitlements)
          token
          now
  unfolding save_access_token
  issue-Reissued token raw_email now db [] usable e = (refl, e)
  issue-Reissued token raw_email now db (x ∷ xs) usable e = (
    refl,
    ground (arith, usable),
    ground (arith, usable),
    refl,
    refl,
    ground (arith, e),
    ap purchased_from (sym e),
    refl,
    refl,
  )

  unusable_cases :
      (trimmed : String)
      → is_unusable trimmed ≡ true
      → (is_blank trimmed ≡ true)
        ⊎ (320 < utf16_length trimmed)
        ⊎ (matches_email_pattern trimmed ≡ false)
  unusable_cases trimmed h = elim (Bool-cases (is_blank trimmed)) [
    | inl blank ↦ inl blank
    | inr there ↦ elim (Bool-cases (matches_email_pattern trimmed)) [
      | inl fits ↦ inr (inl (ground (arith, h, there, fits)))
      | inr malformed ↦ inr (inr malformed)
    ]
  ]

  -- A re-issue that is refused changes nothing; it is refused as invalid only for an address that is
  -- blank, too long or malformed, and for want of a purchase only if the normalised address has no
  -- active entitlement. One that is not refused was for a well-formed address with an active
  -- entitlement: it reports that address and its purchases, leaves every entitlement and every
  -- earlier token alone, and stores the hash of the new token for that address for thirty days.
  pub reissue_access_token-Reissued :
      (token raw_email : String) (now : ℕ) (db : Tables)
      → Reissued raw_email db (reissue_access_token token raw_email now db) token now
  unfolding reissue_access_token
  reissue_access_token-Reissued token raw_email now db =
      if_both (λ result. Reissued raw_email db result token now) (is_unusable (trim raw_email)) _ _
        (λ unusable. (refl, unusable_cases (trim raw_email) unusable))
        (λ usable. issue-Reissued token raw_email now db _ usable refl)

pattern_test :
    (matches_email_pattern "a@b.co" ≡ true)
    × (matches_email_pattern "a@b..co" ≡ true)
    × (matches_email_pattern "a@.co" ≡ false)
    × (matches_email_pattern "a@b.c@d" ≡ false)
    × (matches_email_pattern "a@b." ≡ false)
unfolding matches_email_pattern scan is_space
pattern_test = (refl, refl, refl, refl, refl)
