-- ===== src/Context/Agree/Chosen.antt =====
-- The loop over the groups, newest first, of `ContextWindow.select` in src/agent_runtime/context.py.
use agent_runtime_kit.Canonical.{Message}
use agent_runtime_kit.Context.Agree.Entries.{
  Entry, concat, has, indices, is_mandatory, cost, cost-append, cost_positive, occ-append,
}
use agent_runtime_kit.Context.Agree.Shape.{optional_of}
use agent_runtime_kit.Context.Agree.Sums.{Once, Sound, count_weigh, weigh_agree, weigh-has, IsEntry}
use agent_runtime_kit.Context.Agree.Greedy.{greedy}
use agent_runtime_kit.Context.Agree.Marks.{marks, update-has}
use agent_runtime_kit.Context.Select.{Choice, choose, group_bytes, count_selected, update}
use agent_runtime_kit.Base.{
  All, Bool, Bool-cases, List, Option, [], ap, append-nil, arith, if◌then◌else◌, inl, inr, length,
  ltb, not, sym, ℕ, ◌++◌, ◌+◌, ◌-◌, ◌<◌, ◌∙◌, ◌∷◌, ◌≡◌, append_assoc, false, subst, true,
}
use agent_runtime_kit.Context.Stream.{array_bytes, fits}
use agent_runtime_kit.Context.Agree.Held.{All-append}

-- A choice that holds the entries, `k` groups among them.
pub record Chose (encode : Message → Option ℕ) (n : ℕ) (es : List Entry) (k : ℕ) (c : Choice)
    : Type 0 where
  pub selected : (j : ℕ) → j < n → c.selected j ≡ has j es
  pub bytes : c.bytes ≡ array_bytes (cost encode es)
  pub chosen : c.chosen ≡ k

group_bytes-cost :
    (encode : Message → Option ℕ) (ms : List Message) (sizes : List ℕ) (g : List Entry)
    → Sound encode ms sizes g
    → group_bytes sizes (indices g) + length (indices g) ≡ cost encode g
unfolding group_bytes
group_bytes-cost encode ms sizes [] v = omega arith
group_bytes-cost encode ms sizes (e ∷ es) v =
    let s = v.0.size in omega (arith, s, group_bytes-cost encode ms sizes es v.1)

array_bytes_more :
    (have more : ℕ)
    → 0 < more
    → array_bytes have + more - (if ltb 0 have then 0 else 1) ≡ array_bytes (have + more)
array_bytes_more have more h = ground arith

pub ltb-fits : (b used : ℕ) → ltb b (array_bytes used) ≡ not (fits b used)
ltb-fits b used = ground arith

pub Once-left : (xs ys : List Entry) → Once (xs ++ ys) → Once xs
Once-left xs ys h j = let a = h j in omega (arith, a, occ-append j xs ys)

module _ (encode : Message → Option ℕ) (ms : List Message) (sizes : List ℕ) (b hist : ℕ) where
  -- The bytes with one group more.
  abbrev candidate : List Entry → Choice → ℕ
  candidate g c =
      c.bytes
      + group_bytes sizes (indices g)
      + length (indices g)
      - (if ltb 0 (count_selected c.selected 0 sizes) then 0 else 1)

  candidate-bytes :
      (es g : List Entry) (k : ℕ) (c : Choice)
      → Chose encode (length sizes) es k c
      → Sound encode ms sizes es
      → Once es
      → Sound encode ms sizes g
      → 0 < length g
      → candidate g c ≡ array_bytes (cost encode (es ++ g))
  candidate-bytes es g k c h v o w p =
      let a =
        weigh_agree c.selected (λ j. has j es) 0 sizes (λ j l m. h.selected j (omega arith)) in
      let z = count_weigh c.selected sizes ∙ ap (ltb 0) (a ∙ weigh-has encode ms sizes es v o) in
      let y = group_bytes-cost encode ms sizes g w in
      let q : 0 < cost encode g = elim (cost_positive encode g) [
        | inl n ↦ absurd (omega arith)
        | inr l ↦ l
      ] in
      let r = array_bytes_more (cost encode es) (cost encode g) q in
      let t : c.bytes + group_bytes sizes (indices g) + length (indices g)
          ≡ array_bytes (cost encode es) + cost encode g =
        omega (arith, h.bytes, y) in
      ap (λ n. n - (if ltb 0 (count_selected c.selected 0 sizes) then 0 else 1)) t
      ∙ ap (λ (u : Bool). array_bytes (cost encode es) + cost encode g - (if u then 0 else 1)) z
      ∙ r
      ∙ ap array_bytes (sym (cost-append encode es g))

  -- One group more.
  more-Chose :
      (es g : List Entry) (k : ℕ) (c : Choice)
      → Chose encode (length sizes) es k c
      → candidate g c ≡ array_bytes (cost encode (es ++ g))
      → Chose encode (length sizes) (es ++ g) (k + 1) (record {
        selected = update c.selected (indices g);
        bytes = candidate g c;
        chosen = c.chosen + 1;
      })
  more-Chose es g k c h q = record {
    selected = λ j l. update-has c.selected es g j (h.selected j l);
    bytes = q;
    chosen = omega (arith, h.chosen);
  }

  abbrev pub Gains : List Entry → ℕ → List (List Entry) → Choice → Type 0
  Gains es k taken c = Chose encode (length sizes) (es ++ concat taken) (k + length taken) c

  Gains-more :
      (es g : List Entry) (k : ℕ) (taken : List (List Entry)) (c : Choice)
      → Gains (es ++ g) (k + 1) taken c
      → Gains es k (g ∷ taken) c
  Gains-more es g k taken c h = record {
    selected = λ j l. h.selected j l ∙ ap (has j) (append_assoc es g (concat taken));
    bytes = h.bytes ∙ ap (λ l. array_bytes (cost encode l)) (append_assoc es g (concat taken));
    chosen = omega (arith, h.chosen);
  }

  Gains-nothing :
      (es : List Entry) (k : ℕ) (c : Choice) → Chose encode (length sizes) es k c → Gains es k [] c
  Gains-nothing es k c h = record {
    selected = λ j l. h.selected j l ∙ ap (has j) (sym (append-nil es));
    bytes = h.bytes ∙ ap (λ l. array_bytes (cost encode l)) (sym (append-nil es));
    chosen = omega (arith, h.chosen);
  }

  -- The loop takes the newest optional groups that fit.
  pub choose-Gains :
      (gs : List (List Entry)) (es : List Entry) (k : ℕ) (c : Choice)
      → Chose encode (length sizes) es k c
      → Sound encode ms sizes es
      → All (Sound encode ms sizes) gs
      → All (λ g. 0 < length g) gs
      → Once (es ++ concat (optional_of hist gs))
      → Gains es k
          (greedy encode b (cost encode es) (optional_of hist gs))
          (choose b sizes (marks hist gs) c)
  unfolding choose greedy
  choose-Gains [] es k c h v w p o = Gains-nothing es k c h
  choose-Gains (g ∷ gs) es k c h v w p o = elim (Bool-cases (is_mandatory hist g)) [
    | inl e ↦
        let o' : Once (es ++ concat (optional_of hist gs)) = rw e at o in
        rw e (choose-Gains gs es k c h v w.1 p.1 o')
    | inr e ↦
        let o' : Once (es ++ concat (g ∷ optional_of hist gs)) = rw e at o in
        let o2 : Once ((es ++ g) ++ concat (optional_of hist gs)) =
          rw (append_assoc es g (concat (optional_of hist gs))) o' in
        let q =
          candidate-bytes es g k c h v (Once-left es (g ++ concat (optional_of hist gs)) o') w.0
            p.0 in
        let d : ltb b (candidate g c) ≡ not (fits b (cost encode es + cost encode g)) =
          ap (ltb b) q
          ∙ ltb-fits b (cost encode (es ++ g))
          ∙ ap (λ n. not (fits b n)) (cost-append encode es g) in
        let c' : Choice = record {
          selected = update c.selected (indices g);
          bytes = candidate g c;
          chosen = c.chosen + 1;
        } in
        let ih =
          choose-Gains gs (es ++ g) (k + 1) c' (more-Chose es g k c h q)
            (All-append (IsEntry encode ms sizes) es g v w.0) w.1 p.1 o2 in
        let ih' =
          subst
            (λ n.
              Gains (es ++ g) (k + 1) (greedy encode b n (optional_of hist gs))
                (choose b sizes (marks hist gs) c'))
            (cost-append encode es g) ih in
        elim (Bool-cases (fits b (cost encode es + cost encode g))) [
          | inl f ↦
              let d' : ltb b (candidate g c) ≡ false = rw f at d in
              rw (e, d', f)
                (Gains-more es g k
                  (greedy encode b (cost encode es + cost encode g) (optional_of hist gs))
                  (choose b sizes (marks hist gs) c') ih')
          | inr f ↦
              let d' : ltb b (candidate g c) ≡ true = rw f at d in
              rw (e, d', f) (Gains-nothing es k c h)
        ]
  ]
