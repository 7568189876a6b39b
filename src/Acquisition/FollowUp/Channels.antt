-- ===== src/Acquisition/FollowUp/Channels.antt =====
-- packages/core-acquisition/src/followUp.ts: the channel of the next touch.
use ai_client_acquisition_os.Common.{
  ℕ, zero, suc, ◌+◌, ◌-◌, ◌<◌, min, ◌≡◌, refl, true, false, List, [], ◌∷◌, Option, none, some, ◌==◌,
  get_elem?, length, find, any, arith, Bool-cases, inl, inr, ◌⊎◌, Memᴰ, mem-keep, find_sound,
  find-none-any, Option-cases,
}
use ai_client_acquisition_os.Acquisition.FollowUp.{
  FollowUpChannel, email, linkedin, whatsapp, instagram_dm, FollowUpContext, ContactChannels,
  choose_channel, available_channels, has_channel, differs, channel_escalation, alternative,
  preferred,
}

-- The lead can be reached on the channel, which repeats the last one only if there is no other.
abbrev pub Fits : FollowUpContext → FollowUpChannel → Type 0
Fits context channel =
    (has_channel context.channels channel ≡ true)
    × ((differs context.last_channel channel ≡ true)
        ⊎ (any (differs context.last_channel) (available_channels context.channels) ≡ false))

get_elem?-some {ℓ} :
    {A : Type ℓ} (xs : List A) (i : ℕ)
    → i < length xs
    → (x : A) × (get_elem? xs i ≡ some x) × Memᴰ x xs
get_elem?-some [] i h = elim h [ ]
get_elem?-some (x ∷ xs) zero h = (x, refl, Memᴰ.head refl)
get_elem?-some (x ∷ xs) (suc i) h =
    let (y, e, m) = get_elem?-some xs i (omega arith) in (y, e, Memᴰ.tail m)

preferred_found :
    (available : List FollowUpChannel) (n : ℕ)
    → 0 < length available
    → (c : FollowUpChannel) × (preferred available (n + 1) ≡ some c) × Memᴰ c available
preferred_found available n h =
    let (c, e, m) = get_elem?-some available (min n (length available - 1)) (omega arith) in
    let k : n + 1 - 1 ≡ n = omega arith in (c, ground (arith, k), m)

available-has :
    (channels : ContactChannels) (c : FollowUpChannel)
    → Memᴰ c (available_channels channels)
    → has_channel channels c ≡ true
unfolding available_channels
available-has channels c m = (mem-keep (has_channel channels) c channel_escalation m).1

alternative-Fits :
    (context : FollowUpContext) (c : FollowUpChannel)
    → Memᴰ c (available_channels context.channels)
    → (d : FollowUpChannel) × (alternative
          (available_channels context.channels)
          context.last_channel
          (some c)
        ≡ some d)
      × Fits context d
alternative-Fits context c m = elim (Bool-cases (differs context.last_channel c)) [
  | inl new ↦ (c, rw new refl, (available-has context.channels c m, inl new))
  | inr old ↦
      elim (Option-cases
        (find (differs context.last_channel) (available_channels context.channels))) [
          | inl n ↦ (
            c,
            rw (old, n) refl,
            (
              available-has context.channels c m,
              inr (
                  find-none-any (differs context.last_channel) (available_channels context.channels)
                    n),
            ),
          )
          | inr (d, e) ↦
              let (new, k) =
                find_sound (differs context.last_channel) (available_channels context.channels) d
                  e in
              (d, rw (old, e) refl, (available-has context.channels d k, inl new))
        ]
]

no_channel :
    (channels : ContactChannels) (c : FollowUpChannel)
    → length (available_channels channels) ≡ 0
    → has_channel channels c ≡ false
unfolding available_channels
no_channel channels email h = ground arith
no_channel channels linkedin h = ground arith
no_channel channels whatsapp h = ground arith
no_channel channels instagram_dm h = ground arith

-- A channel is chosen exactly if the lead has one.
abbrev pub Chosen : FollowUpContext → Option FollowUpChannel → Type 0
Chosen context result =
    ((d : FollowUpChannel) × (result ≡ some d) × Fits context d)
    ⊎ ((result ≡ none) × ((c : FollowUpChannel) → has_channel context.channels c ≡ false))

pub choose_channel-Chosen :
    (context : FollowUpContext) (n : ℕ)
    → Chosen context (choose_channel context.channels (n + 1) context.last_channel)
unfolding choose_channel
choose_channel-Chosen context n =
    elim (Bool-cases (length (available_channels context.channels) == 0)) [
      | inl e ↦ inr (rw e refl, λ c. no_channel context.channels c (ground arith))
      | inr e ↦
          let (c, p, m) = preferred_found (available_channels context.channels) n (ground arith) in
          let (d, q, fits) = alternative-Fits context c m in inl (d, rw (e, p) q, fits)
    ]
