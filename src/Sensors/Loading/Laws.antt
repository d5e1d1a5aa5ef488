-- ===== src/Sensors/Loading/Laws.antt =====
-- The list of sub-HALs that a configuration file gives.
use device_xiaomi_camellia.Base.{
  inl, inr, ◌⊎◌, Option-cases, Bool-cases, subst, ℕ, false, ◌≡◌, refl, ◌∙◌, sym, ap, none, some,
  List, [], ◌∷◌, ◌++◌, String, ◌<>◌, arith, All, append_assoc, append-nil, ◌==◌, Option-cases, ◌⊎◌,
  subst,
}
use device_xiaomi_camellia.Sensors.Loading.Words.{IsName, lines, words-lines}
use device_xiaomi_camellia.Sensors.Loading.{
  Library, Loader, Wrapper, v2_0, v2_1, open_in, get_handle_for_sub_hal_shared_object, add_library,
  load_library, load_libraries, initialize_sub_hal_list_from_config_file,
  sub_hal_share_object_locations,
}

module _ {H : Type 0} (L : Loader H) where
  -- The library is the one of the first place at which the linker opens one.
  pub data OpensIn (name : String) : List String → Library H → Type 0 where
    here :
        {dir : String} {dirs : List String} {library : Library H}
        → L.open_library (dir <> name) ≡ some library
        → OpensIn name (dir ∷ dirs) library
    further :
        {dir : String} {dirs : List String} {library : Library H}
        → L.open_library (dir <> name) ≡ none
        → OpensIn name dirs library
        → OpensIn name (dir ∷ dirs) library

  -- The first of the two functions that is there answers, with its version.
  pub data Answers (library : Library H) : Wrapper H → Type 0 where
    by_2_0 :
        {h : H} → library.get_sub_hal ≡ some (L.sub_hal_2_0_version, h) → Answers library (v2_0 h)
    by_2_1 :
        {h : H}
        → library.get_sub_hal ≡ none
        → library.get_sub_hal_2_1 ≡ some (L.sub_hal_2_1_version, h)
        → Answers library (v2_1 h)

  abbrev pub Gives : String → Wrapper H → Type 0
  Gives name w =
      (library : Library H) × OpensIn name (sub_hal_share_object_locations L) library
      × Answers library w

  -- The sub-HALs of some names, in their order; a name that gives none is left out.
  pub data Collects : List String → List (Wrapper H) → Type 0 where
    no_names : Collects [] []
    gives :
        {name : String} {names : List String} {w : Wrapper H} {ws : List (Wrapper H)}
        → Gives name w
        → Collects names ws
        → Collects (name ∷ names) (w ∷ ws)
    lacks :
        {name : String} {names : List String} {ws : List (Wrapper H)}
        → ((w : Wrapper H) → ¬ Gives name w)
        → Collects names ws
        → Collects (name ∷ names) ws

  open_in-OpensIn :
      (dirs : List String) (name : String) (library : Library H)
      → open_in L dirs name ≡ some library
      → OpensIn name dirs library
  unfolding open_in
  open_in-OpensIn [] name library e = cc
  open_in-OpensIn (dir ∷ dirs) name library e = elim (Option-cases (L.open_library (dir <> name))) [
    | inl n ↦ further n (open_in-OpensIn dirs name library (rw (n, open_in) at e))
    | inr (found, f) ↦ here (f ∙ rw (f, open_in) at e)
  ]

  OpensIn-open_in :
      {name : String} {dirs : List String} {library : Library H}
      → OpensIn name dirs library
      → open_in L dirs name ≡ some library
  unfolding open_in
  OpensIn-open_in (here e) = rw (e, open_in) refl
  OpensIn-open_in (further n o) = rw (n, open_in) (OpensIn-open_in o)

  wrong_version :
      (library : Library H) (version : ℕ) (h : H) (w : Wrapper H)
      → library.get_sub_hal ≡ some (version, h)
      → (version == L.sub_hal_2_0_version) ≡ false
      → ¬ Answers library w
  wrong_version library version h (v2_0 g) e wrong (by_2_0 e') = ground arith
  wrong_version library version h (v2_1 g) e wrong (by_2_1 n e') = cc

  wrong_version_2_1 :
      (library : Library H) (version : ℕ) (h : H) (w : Wrapper H)
      → library.get_sub_hal ≡ none
      → library.get_sub_hal_2_1 ≡ some (version, h)
      → (version == L.sub_hal_2_1_version) ≡ false
      → ¬ Answers library w
  wrong_version_2_1 library version h (v2_0 g) n e wrong (by_2_0 e') = cc
  wrong_version_2_1 library version h (v2_1 g) n e wrong (by_2_1 n' e') = ground arith

  no_function :
      (library : Library H) (w : Wrapper H)
      → library.get_sub_hal ≡ none
      → library.get_sub_hal_2_1 ≡ none
      → ¬ Answers library w
  no_function library (v2_0 g) n m (by_2_0 e') = cc
  no_function library (v2_1 g) n m (by_2_1 n' e') = cc

  add_library-cases :
      (library : Library H) (ws : List (Wrapper H))
      → ((w : Wrapper H) × Answers library w × (add_library L library ws ≡ ws ++ w ∷ []))
        ⊎ (((w : Wrapper H) → ¬ Answers library w) × (add_library L library ws ≡ ws))
  unfolding add_library
  add_library-cases library ws = elim (Option-cases library.get_sub_hal) [
    | inr ((version, h), e) ↦ elim (Bool-cases (version == L.sub_hal_2_0_version)) [
      | inl same ↦ inl (v2_0 h, by_2_0 (ground arith), rw (e, same, add_library) refl)
      | inr wrong ↦
          inr (λ w. wrong_version library version h w e wrong, rw (e, wrong, add_library) refl)
    ]
    | inl n ↦ elim (Option-cases library.get_sub_hal_2_1) [
      | inr ((version, h), e) ↦ elim (Bool-cases (version == L.sub_hal_2_1_version)) [
        | inl same ↦ inl (v2_1 h, by_2_1 n (ground arith), rw (n, e, same, add_library) refl)
        | inr wrong ↦ inr (
          λ w. wrong_version_2_1 library version h w n e wrong,
          rw (n, e, wrong, add_library) refl,
        )
      ]
      | inl m ↦ inr (λ w. no_function library w n m, rw (n, m, add_library) refl)
    ]
  ]

  not_opened :
      (name : String) (w : Wrapper H)
      → get_handle_for_sub_hal_shared_object L name ≡ none
      → ¬ Gives name w
  unfolding get_handle_for_sub_hal_shared_object
  not_opened name w n (library, o, a) =
      let e : open_in L (sub_hal_share_object_locations L) name ≡ some library =
        OpensIn-open_in o in
      cc

  opened_alike :
      (name : String) (library : Library H) (w : Wrapper H)
      → get_handle_for_sub_hal_shared_object L name ≡ some library
      → ((v : Wrapper H) → ¬ Answers library v)
      → ¬ Gives name w
  unfolding get_handle_for_sub_hal_shared_object
  opened_alike name library w e lacking (other, o, a) =
      let e' : open_in L (sub_hal_share_object_locations L) name ≡ some other = OpensIn-open_in o in
      let same : other ≡ library = cc in lacking w (subst (λ l. Answers l w) same a)

  load_library-cases :
      (name : String) (ws : List (Wrapper H))
      → ((w : Wrapper H) × Gives name w × (load_library L name ws ≡ ws ++ w ∷ []))
        ⊎ (((w : Wrapper H) → ¬ Gives name w) × (load_library L name ws ≡ ws))
  unfolding load_library get_handle_for_sub_hal_shared_object
  load_library-cases name ws = elim (Option-cases (get_handle_for_sub_hal_shared_object L name)) [
    | inl n ↦ inr (λ w. not_opened name w n, rw (n, load_library) refl)
    | inr (library, e) ↦ elim (add_library-cases library ws) [
      | inl (w, a, added) ↦ inl (
        w,
        (library, open_in-OpensIn (sub_hal_share_object_locations L) name library e, a),
        rw (e, load_library) added,
      )
      | inr (lacking, added) ↦
          inr (λ w. opened_alike name library w e lacking, rw (e, load_library) added)
    ]
  ]

  load_libraries-Collects :
      (names : List String) (ws : List (Wrapper H))
      → (found : List (Wrapper H)) × Collects names found
        × (load_libraries L names ws ≡ ws ++ found)
  unfolding load_libraries
  load_libraries-Collects [] ws = ([], no_names, sym (append-nil ws))
  load_libraries-Collects (name ∷ names) ws = elim (load_library-cases name ws) [
    | inl (w, g, e) ↦
        let (found, c, later) = load_libraries-Collects names (load_library L name ws) in
        (w ∷ found, gives g c, later ∙ ap (λ l. l ++ found) e ∙ append_assoc ws (w ∷ []) found)
    | inr (lacking, e) ↦
        let (found, c, later) = load_libraries-Collects names (load_library L name ws) in
        (found, lacks lacking c, later ∙ ap (λ l. l ++ found) e)
  ]

  -- The file with a name on each line gives the sub-HALs of those names, in their order: for each
  -- name the library of the first place at which one opens, by the function and the version that it
  -- has, and nothing for a name without such a library.
  pub initialize_sub_hal_list_lem :
      (names : List String)
      → All IsName names
      → Collects names (initialize_sub_hal_list_from_config_file L (some (lines names)) [])
  unfolding initialize_sub_hal_list_from_config_file
  initialize_sub_hal_list_lem names are =
      let (found, c, e) = load_libraries-Collects names [] in rw (words-lines names are, e) c
