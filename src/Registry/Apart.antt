-- ===== src/Registry/Apart.antt =====
-- Instances of a daemon that share no file: a call on one leaves what the others serve.
use lazyd.Base.{
  ℕ, ◌≡◌, refl, ap, sym, subst, ◌∙◌, inl, inr, Text, text_eq, text_eq_refl, text_eq_sound, false,
  some, Bool-cases, insert, lookup-insert_same, lookup-insert_other,
}
use lazyd.Instance.{Instance, InstanceState}
use lazyd.Instance.Fetch.{Serves, IsHonest}
use lazyd.Instance.Fixed.{Local, Serves-elsewhere}
use lazyd.Registry.{Setup, World, get}
use lazyd.Registry.Changes.{text-EqLaws}
use lazyd.Registry.Serving.{WorldServes, state_of}

-- A cache file and a bitmap that are no file of `j`.
pub record PathsApart (target map : Text) (j : Instance) : Type 0 where
  pub targets : text_eq target j.config.target_path ≡ false
  pub target_map : text_eq target j.range_map.file ≡ false
  pub map_target : text_eq map j.config.target_path ≡ false
  pub maps : text_eq map j.range_map.file ≡ false

abbrev pub FilesApart : Instance → Instance → Type 0
FilesApart i j = PathsApart i.config.target_path i.range_map.file j

text_eq_sym : (a b : Text) → text_eq a b ≡ false → text_eq b a ≡ false
text_eq_sym a b h = elim (Bool-cases (text_eq b a)) [
  | inr q ↦ q
  | inl q ↦
      let e = subst (λ c. text_eq c b ≡ false) (sym (text_eq_sound b a q)) h in
      absurd (let z = text_eq_refl b in cc)
]

pub FilesApart-sym : (i j : Instance) → FilesApart i j → FilesApart j i
FilesApart-sym i j a = record {
  targets = text_eq_sym i.config.target_path j.config.target_path a.targets;
  target_map = text_eq_sym i.range_map.file j.config.target_path a.map_target;
  map_target = text_eq_sym i.config.target_path j.range_map.file a.target_map;
  maps = text_eq_sym i.range_map.file j.range_map.file a.maps;
}

abbrev pub AllApart : World → Type 0
AllApart w =
    (a b : Text) (i j : Instance)
    → get a w ≡ some i
    → get b w ≡ some j
    → text_eq a b ≡ false
    → FilesApart i j

module _ (id : Text) (w : World) (i : Instance) (q : get id w ≡ some i) (t : InstanceState)
    (l : Local (state_of i w) t) where
  -- The world behind a call on the instance with the name `id`
  abbrev pub after : World
  after = record w {
    instances = insert text_eq id t.inst w.instances;
    disk = t.disk;
    calls = t.calls;
  }

  get_same : get id after ≡ some t.inst
  unfolding get
  get_same = lookup-insert_same text_eq text-EqLaws id t.inst w.instances

  get_other : (name : Text) → text_eq id name ≡ false → get name after ≡ get name w
  unfolding get
  get_other name h = lookup-insert_other text_eq text-EqLaws id name t.inst w.instances h

  -- An instance behind the call was there before it, with the same files.
  record Origin (name : Text) (j : Instance) : Type 0 where
    before : Instance
    found : get name w ≡ some before
    target : before.config.target_path ≡ j.config.target_path
    file : before.range_map.file ≡ j.range_map.file

  origin : (name : Text) (j : Instance) → get name after ≡ some j → Origin name j
  origin name j g = elim (Bool-cases (text_eq id name)) [
    | inl h ↦
        let same : t.inst ≡ j =
          (let e = subst (λ n. get n after ≡ some t.inst) (text_eq_sound id name h) get_same in
            cc) in
        record {
          before = i;
          found = subst (λ n. get n w ≡ some i) (text_eq_sound id name h) q;
          target = sym (ap (λ c. c.target_path) l.config) ∙ ap (λ k. k.config.target_path) same;
          file = sym l.file ∙ ap (λ k. k.range_map.file) same;
        }
    | inr h ↦ record { before = j; found = sym (get_other name h) ∙ g; target = refl; file = refl }
  ]

  pub after-AllApart : AllApart w → AllApart after
  after-AllApart apart a b j k ga gb ne =
      let x = origin a j ga in
      let y = origin b k gb in
      let f = apart a b x.before y.before x.found y.found ne in
      record {
        targets =
            ap (λ p. text_eq p k.config.target_path) (sym x.target)
            ∙ ap (text_eq x.before.config.target_path) (sym y.target)
            ∙ f.targets;
        target_map =
            ap (λ p. text_eq p k.range_map.file) (sym x.target)
            ∙ ap (text_eq x.before.config.target_path) (sym y.file)
            ∙ f.target_map;
        map_target =
            ap (λ p. text_eq p k.config.target_path) (sym x.file)
            ∙ ap (text_eq x.before.range_map.file) (sym y.target)
            ∙ f.map_target;
        maps =
            ap (λ p. text_eq p k.range_map.file) (sym x.file)
            ∙ ap (text_eq x.before.range_map.file) (sym y.file)
            ∙ f.maps;
      }

  module _ (setup : Setup) (blob : Text → ℕ → ℕ) (serves : WorldServes setup blob w)
      (apart : AllApart w) (v : Serves (blob id) t) where
    after-Serves :
        (name : Text) (j : Instance)
        → get name after ≡ some j
        → Serves (blob name) (state_of j after) × IsHonest (blob name) (setup.backend j.config)
    after-Serves name j g = elim (Bool-cases (text_eq id name)) [
      | inl h ↦
          subst
            (λ n.
              get n after ≡ some j
              → Serves (blob n) (state_of j after) × IsHonest (blob n) (setup.backend j.config))
            (text_eq_sound id name h)
            (λ e.
              let same : t.inst ≡ j = (let z = get_same in cc) in
              subst
                (λ k.
                  Serves (blob id) (state_of k after) × IsHonest (blob id) (setup.backend k.config))
                same
                (
                  v,
                  subst (λ c. IsHonest (blob id) (setup.backend c)) (sym l.config)
                      (serves.honest id i q),
                ))
            g
      | inr h ↦
          let there = sym (get_other name h) ∙ g in
          let f = apart id name i j q there h in
          (
            Serves-elsewhere (blob name) j w.disk t.disk w.calls t.calls
                (serves.serves name j there) (l.others j.config.target_path f.targets f.map_target)
                (l.others j.range_map.file f.target_map f.maps),
            serves.honest name j there,
          )
    ]

    pub after-WorldServes : WorldServes setup blob after
    after-WorldServes = record {
      serves = λ name j g. (after-Serves name j g).0;
      honest = λ name j g. (after-Serves name j g).1;
    }
