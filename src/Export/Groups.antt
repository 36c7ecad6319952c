-- ===== src/Export/Groups.antt =====
-- The groups that the second and the third pass of export_pmns_data write, against the runs of
-- clusters with one name.
use pcp_pmda_cpp.Base.{
  ℕ, inl, inr, true, false, Bool-cases, ◌≡◌, refl, ◌∙◌, sym, ap, arith, Text, codes, text_eq,
  text_eq_refl, eq_of_text_eq, All, List, [], ◌∷◌, ◌++◌, append_assoc, append-nil, is_empty,
  if◌then◌else◌,
}
use pcp_pmda_cpp.Map.{Map}
use pcp_pmda_cpp.Metrics.Defs.{MetricCluster}
use pcp_pmda_cpp.Export.Files.{endl}
use pcp_pmda_cpp.Export.Pmns.{metric_lines, group_blocks, group_names}

-- A group's name and the lines of its metrics.
abbrev pub Group : Type 0
Group = Text × Text

-- A cluster's group before those that follow it: one group where the next has its name.
join : Text → Text → List Group → List Group
join name lines [] = (name, lines) ∷ []
join name lines ((n, l) ∷ gs) =
    if text_eq n name then (name, lines ++ l) ∷ gs else (name, lines) ∷ (n, l) ∷ gs

-- The runs of named clusters that follow each other under one name; a cluster without a name does
-- not end a run.
pub runs : Text → ℕ → Map ℕ MetricCluster → List Group
unfolding join
runs upper widest [] = []
runs upper widest ((c, k) ∷ m) =
    if is_empty k.cluster_name
    then runs upper widest m
    else join k.cluster_name (metric_lines upper widest k.cluster_id k.metrics)
        (runs upper widest m)

-- A block for each group.
pub blocks : Text → List Group → Text
blocks pmda [] = []
blocks pmda ((n, l) ∷ gs) =
    endl
    ++ pmda
    ++ codes "."
    ++ n
    ++ codes " {"
    ++ endl
    ++ l
    ++ (codes "}" ++ endl ++ blocks pmda gs)

-- What is written while the group `p`, or none, is open and `gs` are to come.
continued : Text → Text → List Group → Text
unfolding blocks
continued pmda p [] = if is_empty p then [] else codes "}" ++ endl
continued pmda p ((n, l) ∷ gs) =
    if is_empty p
    then blocks pmda ((n, l) ∷ gs)
    else if text_eq n p
    then l ++ (codes "}" ++ endl ++ blocks pmda gs)
    else codes "}" ++ endl ++ blocks pmda ((n, l) ∷ gs)

-- The group that a cluster is joined to, and what is written of it while it is open.
join-split :
    (pmda n l : Text) (gs : List Group)
    → is_empty n ≡ false
    → (l' : Text) × (gs' : List Group) × (join n l gs ≡ (n, l') ∷ gs')
      × (l ++ continued pmda n gs ≡ l' ++ (codes "}" ++ endl ++ blocks pmda gs'))
unfolding continued join blocks
join-split pmda n l [] e = (l, [], refl, rw e refl)
join-split pmda n l ((n', l') ∷ gs) e = elim (Bool-cases (text_eq n' n)) [
  | inl t ↦ (l ++ l', gs, rw t refl, rw (e, t) (sym (append_assoc l l' _)))
  | inr t ↦ (l, (n', l') ∷ gs, rw t refl, rw (e, t) refl)
]

-- What begins a block.
header : Text → Text → Text
header pmda n = endl ++ pmda ++ codes "." ++ n ++ codes " {" ++ endl

blocks-join :
    (pmda n l : Text) (gs : List Group)
    → is_empty n ≡ false
    → header pmda n ++ l ++ continued pmda n gs ≡ blocks pmda (join n l gs)
unfolding blocks header
blocks-join pmda n l gs e =
    let (l', gs', j, t) = join-split pmda n l gs e in
    rw j (
      append_assoc (header pmda n) l (continued pmda n gs)
      ∙ ap (◌++◌ (header pmda n)) t
      ∙ sym (append_assoc (header pmda n) l' _))

continued-join_same :
    (pmda n p l : Text) (gs : List Group)
    → is_empty n ≡ false
    → is_empty p ≡ false
    → text_eq n p ≡ true
    → l ++ continued pmda n gs ≡ continued pmda p (join n l gs)
unfolding continued
continued-join_same pmda n p l gs e f h =
    let (l', gs', j, t) = join-split pmda n l gs e in rw (j, f, h) t

continued-join_other :
    (pmda n p l : Text) (gs : List Group)
    → is_empty n ≡ false
    → is_empty p ≡ false
    → text_eq n p ≡ false
    → codes "}" ++ endl ++ blocks pmda (join n l gs) ≡ continued pmda p (join n l gs)
unfolding continued
continued-join_other pmda n p l gs e f h =
    let (l', gs', j, t) = join-split pmda n l gs e in rw (j, f, h) refl

continued-none :
    (pmda p : Text) (gs : List Group) → is_empty p ≡ true → continued pmda p gs ≡ blocks pmda gs
unfolding continued blocks
continued-none pmda p [] e = rw e refl
continued-none pmda p ((n, l) ∷ gs) e = rw e refl

text_eq-nonempty : (n p : Text) → text_eq n p ≡ true → is_empty n ≡ false → is_empty p ≡ false
text_eq-nonempty n [] h e = ground (arith, eq_of_text_eq n [] h)
text_eq-nonempty n (a ∷ p) h e = refl

group_blocks-continued :
    (pmda upper : Text) (widest : ℕ) (m : Map ℕ MetricCluster) (p : Text)
    → group_blocks pmda upper widest m p ≡ continued pmda p (runs upper widest m)
unfolding group_blocks runs continued header
group_blocks-continued pmda upper widest [] p = refl
group_blocks-continued pmda upper widest ((c, k) ∷ m) p =
    elim (Bool-cases (is_empty k.cluster_name)) [
      | inl e ↦ rw e (group_blocks-continued pmda upper widest m p)
      | inr e ↦
          rw (e, group_blocks-continued pmda upper widest m k.cluster_name)
            (elim (Bool-cases (text_eq k.cluster_name p)) [
              | inl t ↦ rw t (
                  continued-join_same pmda k.cluster_name p _ (runs upper widest m) e
                    (text_eq-nonempty k.cluster_name p t e) t)
              | inr t ↦ elim (Bool-cases (is_empty p)) [
                | inl f ↦
                    rw
                      (
                        t,
                        f,
                        continued-none pmda p
                            (join k.cluster_name (metric_lines upper widest k.cluster_id k.metrics)
                              (runs upper widest m))
                            f,
                      )
                      (blocks-join pmda k.cluster_name _ (runs upper widest m) e)
                | inr f ↦
                    rw (t, f)
                      (ap (λ x. codes "}" ++ endl ++ x)
                          (blocks-join pmda k.cluster_name _ (runs upper widest m) e)
                        ∙ continued-join_other pmda k.cluster_name p _ (runs upper widest m) e f t)
              ]
            ])
    ]

-- The third pass writes one block for each run of clusters with one name.
pub group_blocks-runs :
    (pmda upper : Text) (widest : ℕ) (m : Map ℕ MetricCluster)
    → group_blocks pmda upper widest m [] ≡ blocks pmda (runs upper widest m)
group_blocks-runs pmda upper widest m =
    group_blocks-continued pmda upper widest m []
    ∙ continued-none pmda [] (runs upper widest m) refl

group_names-All :
    (upper : Text) (widest : ℕ) (g : Text) (m : Map ℕ MetricCluster)
    → is_empty g ≡ false
    → All (λ e. e.1.cluster_name ≡ g) m
    → group_names upper widest m g ≡ ([], g)
unfolding group_names
group_names-All upper widest g [] e h = refl
group_names-All upper widest g ((c, k) ∷ m) e h =
    rw (h.0, e, text_eq_refl g) (group_names-All upper widest g m e h.1)

-- Where all clusters carry one name, the second pass writes that name once, and a second export by
-- the same process, which begins with the name that the static variable has kept, not at all.
pub group_names-repeated :
    (upper : Text) (widest : ℕ) (g previous : Text) (c : ℕ) (k : MetricCluster)
    (m : Map ℕ MetricCluster)
    → is_empty g ≡ false
    → text_eq g previous ≡ false
    → k.cluster_name ≡ g
    → All (λ e. e.1.cluster_name ≡ g) m
    → (group_names upper widest ((c, k) ∷ m) previous ≡ (codes "    " ++ g ++ endl, g))
      × (group_names upper widest ((c, k) ∷ m) g ≡ ([], g))
unfolding group_names
group_names-repeated upper widest g previous c k m e f n h = (
  rw (n, e, f, group_names-All upper widest g m e h) (ap (λ t. (t, g)) (append-nil _)),
  group_names-All upper widest g ((c, k) ∷ m) e (n, h),
)
