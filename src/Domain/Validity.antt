-- ===== src/Domain/Validity.antt =====
-- What the constructors of domain/ let through.
use yyr4_linux_control.Base.{
  ◌⊎◌, inl, inr, refl, ℕ, String, ◌≡◌, ◌≢◌, ◌≤◌, Option, none, some, ok, arith, ap, ==_refl,
  ==_sound, string_eq,
}
use yyr4_linux_control.Base.Int.{ℤ, pos, negsuc}
use yyr4_linux_control.Base.Text.{is_empty}
use yyr4_linux_control.Domain.{
  ControlKind, ControlPhase, down, up, button, PhysicalControl, physical_control, check_indices,
  check_button, check_encoder,
}

abbrev pub InRange : ℕ → ℕ → ℤ → Type 0
InRange lo hi (pos i) = (lo ≤ i) × (i ≤ hi)
InRange lo hi (negsuc _) = ⊥

abbrev pub HasIndex : ℕ → Option ℤ → Option ℤ → Type 0
HasIndex hi (some i) none = InRange 1 hi i
HasIndex hi _ _ = ⊥

-- A button has an index from 1 to 12 and no other, an encoder control one from 1 to 4.
abbrev pub IsIndexed : ControlKind → Option ℤ → Option ℤ → Type 0
IsIndexed button e b = HasIndex 12 b e
IsIndexed _ e b = HasIndex 4 e b

-- the checks on the indices pass only in range
index_button : (b e : Option ℤ) → check_button b e ≡ ok tt → HasIndex 12 b e
unfolding check_button
index_button none e h = cc
index_button (some (pos i)) none h = ground arith
index_button (some (pos i)) (some j) h = cc
index_button (some (negsuc i)) e h = ground arith

index_encoder : (b e : Option ℤ) → check_encoder e b ≡ ok tt → HasIndex 4 e b
unfolding check_encoder
index_encoder b none h = cc
index_encoder none (some (pos i)) h = ground arith
index_encoder (some j) (some (pos i)) h = cc
index_encoder b (some (negsuc i)) h = ground arith

index_check :
    (kind : ControlKind) (e b : Option ℤ) → check_indices kind e b ≡ ok tt → IsIndexed kind e b
unfolding check_indices
index_check button e b h = index_button b e h
index_check kind e b h = index_encoder b e h

-- A constructed control has the arguments given, names that are not empty, and exactly the index
-- of its kind, in that index's range.
pub physical_control_valid :
    (id name : String) (kind : ControlKind) (e b : Option ℤ) {c : PhysicalControl}
    → physical_control id name kind e b ≡ ok c
    → (c ≡ record {
      control_id = id;
      vendor_name = name;
      kind = kind;
      encoder_index = e;
      button_index = b;
    })
      × (id ≢ "")
      × (name ≢ "")
      × IsIndexed kind e b
unfolding physical_control
physical_control_valid id name kind e b h = ground (
  arith,
  ==_refl id,
  ==_refl name,
  ==_sound id "",
  ==_sound name "",
  index_check kind e b,
  λ (p : id ≡ ""). ap is_empty p,
  λ (p : name ≡ ""). ap is_empty p,
)

pub phase-cases : (p : ControlPhase) → (p ≡ down) ⊎ (p ≡ up)
phase-cases down = inl refl
phase-cases up = inr refl
