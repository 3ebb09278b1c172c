-- ===== src/MiniVmm/Cpuid/Presented.antt =====
-- The processor that setup_cpuid (minivmm.c) presents to the guest.
pub mod Leaf
use virtualization_learning.Base.{
  ℕ, suc, ◌+◌, ◌≤◌, ◌<◌, ◌≡◌, refl, sym, ap, ◌∙◌, ◌⊎◌, inl, inr, Bool, true, false, ◌||◌, none,
  some, List, [], ◌∷◌, ◌++◌, arith, ltb, if◌then◌else◌, ltb→lt, Bool-cases, length, length-append,
}
use virtualization_learning.MiniVmm.Cpuid.{
  max_cpuid_entries, CpuidEntry, is_leaf, filter_entries, add_entry, signature_entry,
  features_entry, add_missing, setup_cpuid,
}
use virtualization_learning.MiniVmm.Cpuid.Presented.Leaf.{
  Presents, filter_entry-Presents, filter_entry-function,
}

-- The list `es'` starts with what `es` becomes.
abbrev pub AllPresent : List CpuidEntry → List CpuidEntry → Type 0
AllPresent [] es' = Unit
AllPresent (e ∷ es) [] = ⊥
AllPresent (e ∷ es) (e' ∷ es') = Presents e e' × AllPresent es es'

abbrev pub has_leaf : ℕ → List CpuidEntry → Bool
has_leaf leaf [] = false
has_leaf leaf (e ∷ es) = is_leaf leaf e || has_leaf leaf es

-- How many of the two leaves of a hypervisor on KVM are missing.
abbrev pub missing : List CpuidEntry → ℕ
missing es = (if has_leaf 0x40000000 es then 0 else 1) + (if has_leaf 0x40000001 es then 0 else 1)

or_assoc : (a b c : Bool) → (b || (a || c)) ≡ ((a || b) || c)
or_assoc true true c = refl
or_assoc true false c = refl
or_assoc false true c = refl
or_assoc false false c = refl

or_false : (a : Bool) → (a || false) ≡ a
or_false true = refl
or_false false = refl

filter_entries-length :
    (es : List CpuidEntry) (s f : Bool) → length (filter_entries es s f).0 ≡ length es
unfolding filter_entries
filter_entries-length [] s f = refl
filter_entries-length (e ∷ es) s f =
    ap suc (filter_entries-length es (is_leaf 0x40000000 e || s) (is_leaf 0x40000001 e || f))

filter_entries-Presents :
    (es : List CpuidEntry) (s f : Bool) → AllPresent es (filter_entries es s f).0
unfolding filter_entries
filter_entries-Presents [] s f = tt
filter_entries-Presents (e ∷ es) s f = (
  filter_entry-Presents e,
  filter_entries-Presents es (is_leaf 0x40000000 e || s) (is_leaf 0x40000001 e || f),
)

filter_entries-flags :
    (es : List CpuidEntry) (s f : Bool)
    → ((filter_entries es s f).1 ≡ (has_leaf 0x40000000 es || s))
      × ((filter_entries es s f).2 ≡ (has_leaf 0x40000001 es || f))
unfolding filter_entries
filter_entries-flags [] s f = (refl, refl)
filter_entries-flags (e ∷ es) s f =
    let (sig, feat) =
      filter_entries-flags es (is_leaf 0x40000000 e || s) (is_leaf 0x40000001 e || f) in
    (
      sig ∙ or_assoc (is_leaf 0x40000000 e) (has_leaf 0x40000000 es) s,
      feat ∙ or_assoc (is_leaf 0x40000001 e) (has_leaf 0x40000001 es) f,
    )

filter_entries-has_leaf :
    (leaf : ℕ) (es : List CpuidEntry) (s f : Bool)
    → has_leaf leaf (filter_entries es s f).0 ≡ has_leaf leaf es
unfolding filter_entries
filter_entries-has_leaf leaf [] s f = refl
filter_entries-has_leaf leaf (e ∷ es) s f =
    rw
      (
        filter_entry-function e,
        filter_entries-has_leaf leaf es (is_leaf 0x40000000 e || s) (is_leaf 0x40000001 e || f),
      )
      refl

AllPresent-append :
    (es es' added : List CpuidEntry) → AllPresent es es' → AllPresent es (es' ++ added)
AllPresent-append [] es' added h = tt
AllPresent-append (e ∷ es) [] added h = absurd h
AllPresent-append (e ∷ es) (e' ∷ es') added (h, hs) = (h, AllPresent-append es es' added hs)

has_leaf-append :
    (leaf : ℕ) (es added : List CpuidEntry)
    → has_leaf leaf (es ++ added) ≡ (has_leaf leaf es || has_leaf leaf added)
has_leaf-append leaf [] added = refl
has_leaf-append leaf (e ∷ es) added = rw (has_leaf-append leaf es added) (assoc (is_leaf leaf e))
  where
    assoc :
        (b : Bool)
        → (b || (has_leaf leaf es || has_leaf leaf added))
          ≡ ((b || has_leaf leaf es) || has_leaf leaf added)
    assoc true = refl
    assoc false = refl

-- What is asked of the entries that KVM gets.
abbrev pub IsPresented : List CpuidEntry → List CpuidEntry → Type 0
IsPresented es es' =
    AllPresent es es'
    × (length es' ≡ length es + missing es)
    × (length es' ≤ max_cpuid_entries)
    × (has_leaf 0x40000000 es' ≡ true)
    × (has_leaf 0x40000001 es' ≡ true)

-- One leaf is added where it is missing; `m` counts the entries that may follow.
add_entry-room :
    (e : CpuidEntry) (fs : List CpuidEntry)
    → ((length fs < max_cpuid_entries) × (add_entry e (some fs) ≡ some (fs ++ e ∷ [])))
      ⊎ ((max_cpuid_entries ≤ length fs) × (add_entry e (some fs) ≡ none))
unfolding add_entry
add_entry-room e fs = elim (Bool-cases (ltb (length fs) max_cpuid_entries)) [
  | inl room ↦ inl (ltb→lt (length fs) max_cpuid_entries room, rw room refl)
  | inr full ↦ inr (ground (arith, full), rw full refl)
]

longer : (fs : List CpuidEntry) (e : CpuidEntry) → length (fs ++ e ∷ []) ≡ length fs + 1
longer fs e = omega (arith, length-append fs (e ∷ []))

add_missing_cases :
    (es fs : List CpuidEntry) (s f : Bool)
    → AllPresent es fs
    → length fs ≡ length es
    → length es ≤ max_cpuid_entries
    → has_leaf 0x40000000 fs ≡ s
    → has_leaf 0x40000001 fs ≡ f
    → has_leaf 0x40000000 es ≡ s
    → has_leaf 0x40000001 es ≡ f
    → ((max_cpuid_entries < length es + missing es) × (add_missing (fs, s, f) ≡ none))
      ⊎ ((es' : List CpuidEntry) × (add_missing (fs, s, f) ≡ some es') × IsPresented es es')
unfolding add_missing
add_missing_cases es fs true true h same few sig feat sig' feat' =
    inr (fs, refl, (h, rw (sig', feat') (omega (arith, same)), omega (arith, same, few), sig, feat))
add_missing_cases es fs false true h same few sig feat sig' feat' =
    elim (add_entry-room signature_entry fs) [
      | inr (full, e) ↦ inl (rw (sig', feat') (omega (arith, full, same)), e)
      | inl (room, e) ↦ inr (
        fs ++ signature_entry ∷ [],
        e,
        (
          AllPresent-append es fs (signature_entry ∷ []) h,
          rw (sig', feat') (omega (arith, same, longer fs signature_entry)),
          omega (arith, room, longer fs signature_entry),
          has_leaf-append 0x40000000 fs (signature_entry ∷ []) ∙ rw sig refl,
          has_leaf-append 0x40000001 fs (signature_entry ∷ []) ∙ rw feat refl,
        ),
      )
    ]
add_missing_cases es fs true false h same few sig feat sig' feat' =
    elim (add_entry-room features_entry fs) [
      | inr (full, e) ↦ inl (rw (sig', feat') (omega (arith, full, same)), e)
      | inl (room, e) ↦ inr (
        fs ++ features_entry ∷ [],
        e,
        (
          AllPresent-append es fs (features_entry ∷ []) h,
          rw (sig', feat') (omega (arith, same, longer fs features_entry)),
          omega (arith, room, longer fs features_entry),
          has_leaf-append 0x40000000 fs (features_entry ∷ []) ∙ rw sig refl,
          has_leaf-append 0x40000001 fs (features_entry ∷ []) ∙ rw feat refl,
        ),
      )
    ]
add_missing_cases es fs false false h same few sig feat sig' feat' =
    elim (add_entry-room signature_entry fs) [
      | inr (full, e) ↦
          inl (rw (sig', feat') (omega (arith, full, same)), ap (add_entry features_entry) e)
      | inl (room, e) ↦
          let fs1 = fs ++ signature_entry ∷ [] in
          elim (add_entry-room features_entry fs1) [
            | inr (full, e1) ↦ inl (
              rw (sig', feat') (omega (arith, full, same, longer fs signature_entry)),
              ap (add_entry features_entry) e ∙ e1,
            )
            | inl (room1, e1) ↦ inr (
              fs1 ++ features_entry ∷ [],
              ap (add_entry features_entry) e ∙ e1,
              (
                AllPresent-append es fs1 (features_entry ∷ [])
                    (AllPresent-append es fs (signature_entry ∷ []) h),
                rw (sig', feat')
                    (omega (arith, same, longer fs signature_entry, longer fs1 features_entry)),
                omega (arith, room1, longer fs1 features_entry),
                has_leaf-append 0x40000000 fs1 (features_entry ∷ [])
                    ∙ (rw (has_leaf-append 0x40000000 fs (signature_entry ∷ []), sig) refl),
                has_leaf-append 0x40000001 fs1 (features_entry ∷ [])
                    ∙ (rw (has_leaf-append 0x40000001 fs (signature_entry ∷ []), feat) refl),
              ),
            )
          ]
    ]

-- From the leaves that KVM supports, the guest gets each leaf 1 without x2APIC, with the
-- hypervisor bit, with the host's TSC deadline bit and as the one processor with APIC ID 0, each
-- other leaf as it is, and both leaves of a hypervisor on KVM; only where the missing ones do not
-- fit the buffer, the program stores beyond it.
pub setup_cpuid-IsPresented :
    (es : List CpuidEntry)
    → length es ≤ max_cpuid_entries
    → ((max_cpuid_entries < length es + missing es) × (setup_cpuid es ≡ none))
      ⊎ ((es' : List CpuidEntry) × (setup_cpuid es ≡ some es') × IsPresented es es')
unfolding setup_cpuid
setup_cpuid-IsPresented es few =
    let r = filter_entries es false false in
    let (sig, feat) = filter_entries-flags es false false in
    let sig' = sig ∙ or_false (has_leaf 0x40000000 es) in
    let feat' = feat ∙ or_false (has_leaf 0x40000001 es) in
    add_missing_cases es r.0 r.1 r.2 (filter_entries-Presents es false false)
      (filter_entries-length es false false) few
      (filter_entries-has_leaf 0x40000000 es false false ∙ sym sig')
      (filter_entries-has_leaf 0x40000001 es false false ∙ sym feat') (sym sig') (sym feat')
