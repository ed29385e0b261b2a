-- ===== src/Context/Agree/Held.antt =====
-- The entries of the reference are the messages of src/agent_runtime/context.py with their sizes, and
-- no closed group is empty.
use agent_runtime_kit.Canonical.{Message}
use agent_runtime_kit.Context.Agree.Entries.{Entry, concat, size_of, is_mandatory}
use agent_runtime_kit.Context.Agree.Reference.{Full, close, join, opened}
use agent_runtime_kit.Context.Agree.Sums.{IsEntry, Sound, nth}
use agent_runtime_kit.Context.Agree.Shape.{joins_member, joins_system, join-Joins, optional_of}
use agent_runtime_kit.Errors.{ok}
use agent_runtime_kit.Base.{
  All, Bool-cases, List, Option, [], arith, if◌then◌else◌, inl, inr, is_empty, length,
  length-append, refl, some, subst, suc, sym, zero, ℕ, ◌&&◌, ◌++◌, ◌<◌, ◌==◌, ◌||◌, ◌∙◌, ◌∷◌, ◌≡◌,
  Bool, false, true,
}
use agent_runtime_kit.Context.Select.{size_at}
use agent_runtime_kit.Context.Exchange.{is_user}

pub All-append {ℓ κ} :
    {A : Type ℓ} (P : A → Type κ) (xs ys : List A) → All P xs → All P ys → All P (xs ++ ys)
All-append P [] ys a b = b
All-append P (x ∷ xs) ys a b = (a.0, All-append P xs ys a.1 b)

pub Sound-concat :
    (encode : Message → Option ℕ) (ms : List Message) (sizes : List ℕ) (gs : List (List Entry))
    → All (Sound encode ms sizes) gs
    → Sound encode ms sizes (concat gs)
Sound-concat encode ms sizes [] a = tt
Sound-concat encode ms sizes (g ∷ gs) a =
    All-append (IsEntry encode ms sizes) g (concat gs) a.0 (Sound-concat encode ms sizes gs a.1)

pub All-optional {κ} :
    (P : List Entry → Type κ) (hist : ℕ) (gs : List (List Entry))
    → All P gs
    → All P (optional_of hist gs)
All-optional P hist [] a = tt
All-optional P hist (g ∷ gs) a = elim (Bool-cases (is_mandatory hist g)) [
  | inl e ↦ rw e (All-optional P hist gs a.1)
  | inr e ↦ rw e (a.0, All-optional P hist gs a.1)
]

size_at-append :
    (sizes more : List ℕ) (k : ℕ) → k < length sizes → size_at (sizes ++ more) k ≡ size_at sizes k
unfolding size_at
size_at-append [] more k h = absurd (omega arith)
size_at-append (x ∷ xs) more zero h = refl
size_at-append (x ∷ xs) more (suc k) h = size_at-append xs more k (omega arith)

size_at-last : (sizes : List ℕ) (size : ℕ) → size_at (sizes ++ size ∷ []) (length sizes) ≡ size
unfolding size_at
size_at-last [] size = refl
size_at-last (x ∷ xs) size = size_at-last xs size

pub nth-append :
    (done : List Message) (m : Message) (rest : List Message)
    → nth (done ++ m ∷ rest) (length done) ≡ some m
nth-append [] m rest = refl
nth-append (x ∷ xs) m rest = nth-append xs m rest

not_empty : (es : List Entry) → is_empty es ≡ false → 0 < length es
not_empty [] h = absurd (ground arith)
not_empty (e ∷ es) h = omega arith

module _ (encode : Message → Option ℕ) (ms : List Message) where
  Sound-grows :
      (sizes : List ℕ) (size : ℕ) (es : List Entry)
      → Sound encode ms sizes es
      → Sound encode ms (sizes ++ size ∷ []) es
  Sound-grows sizes size [] a = tt
  Sound-grows sizes size (e ∷ es) a = (
    record {
      below = omega (arith, a.0.below, length-append sizes (size ∷ []));
      size = size_at-append sizes (size ∷ []) e.0 a.0.below ∙ a.0.size;
      message = a.0.message;
    },
    Sound-grows sizes size es a.1,
  )

  All-grows :
      (sizes : List ℕ) (size : ℕ) (gs : List (List Entry))
      → All (Sound encode ms sizes) gs
      → All (Sound encode ms (sizes ++ size ∷ [])) gs
  All-grows sizes size [] a = tt
  All-grows sizes size (g ∷ gs) a = (Sound-grows sizes size g a.0, All-grows sizes size gs a.1)

  pub record IsHeld (f : Full) : Type 0 where
    pub systems : Sound encode ms f.sizes f.systems
    pub required : Sound encode ms f.sizes f.required
    pub group : Sound encode ms f.sizes f.group
    pub closed : All (Sound encode ms f.sizes) f.closed
    pub nonempty : All (λ g. 0 < length g) f.closed

  mandatory-Sound :
      (b : Bool) (f : Full) → IsHeld f → Sound encode ms f.sizes (if b then f.group else [])
  mandatory-Sound true f p = p.group
  mandatory-Sound false f p = tt

  pub close-IsHeld : (hist : ℕ) (f : Full) → IsHeld f → IsHeld (close hist f)
  unfolding close
  close-IsHeld hist f p = elim (Bool-cases (is_empty f.group)) [
    | inl e ↦ rw e p
    | inr e ↦ rw e (record {
      systems = p.systems;
      required =
          All-append (IsEntry encode ms f.sizes) f.required
            (if is_mandatory hist f.group then f.group else []) p.required
            (mandatory-Sound (is_mandatory hist f.group) f p);
      group = tt;
      closed = All-append (Sound encode ms f.sizes) f.closed (f.group ∷ []) p.closed (p.group, tt);
      nonempty =
          All-append (λ g. 0 < length g) f.closed (f.group ∷ []) p.nonempty
            (not_empty f.group e, tt);
    })
  ]

  last-Sound :
      (m : Message) (size : ℕ) (f : Full) (es : List Entry)
      → encode m ≡ some size
      → nth ms (length f.sizes) ≡ some m
      → Sound encode ms f.sizes es
      → Sound encode ms (f.sizes ++ size ∷ []) (es ++ (length f.sizes, m) ∷ [])
  last-Sound m size f es h n a =
      All-append (IsEntry encode ms (f.sizes ++ size ∷ [])) es ((length f.sizes, m) ∷ [])
        (Sound-grows f.sizes size es a)
        (
          record {
            below = omega (arith, length-append f.sizes (size ∷ []));
            size = size_at-last f.sizes size ∙ sym (rw (h, size_of) refl);
            message = n;
          },
          tt,
        )

  pub join-IsHeld :
      (m : Message) (size : ℕ) (f f' : Full)
      → encode m ≡ some size
      → nth ms (length f.sizes) ≡ some m
      → IsHeld f
      → join m size f ≡ ok f'
      → IsHeld f'
  join-IsHeld m size f f' h n p j = elim (join-Joins m size f f' j) [
    | joins_system e q ↦ subst (IsHeld) (sym q) (record {
      systems = last-Sound m size f f.systems h n p.systems;
      required = last-Sound m size f f.required h n p.required;
      group = Sound-grows f.sizes size f.group p.group;
      closed = All-grows f.sizes size f.closed p.closed;
      nonempty = p.nonempty;
    })
    | joins_member pending e g q ↦ subst (IsHeld) (sym q) (record {
      systems = Sound-grows f.sizes size f.systems p.systems;
      required = Sound-grows f.sizes size f.required p.required;
      group = last-Sound m size f f.group h n p.group;
      closed = All-grows f.sizes size f.closed p.closed;
      nonempty = p.nonempty;
    })
  ]

  pub opened-IsHeld : (hist : ℕ) (m : Message) (f : Full) → IsHeld f → IsHeld (opened hist m f)
  opened-IsHeld hist m f p =
      elim (Bool-cases ((is_user m.role || (length f.sizes == hist)) && is_empty f.pending)) [
        | inl e ↦ rw e (close-IsHeld hist f p)
        | inr e ↦ rw e p
      ]
