-- ===== src/Usb/Gadget/TearDown/Undone.antt =====
-- The links that one request makes are removed by the tear-down of the next one.
use Prim.Native.String
use device_xiaomi_camellia.Base.{
  ℕ, zero, suc, ◌+◌, ◌≡◌, refl, sym, ap, ◌∙◌, true, false, some, List, [], ◌∷◌, ◌++◌, map,
  append-nil, length, All, String, ◌<>◌, arith,
}
use device_xiaomi_camellia.Base.Find.{find-append}
use device_xiaomi_camellia.Usb.World.{World, returns}
use device_xiaomi_camellia.Usb.Gadget.{GadgetFunction}
use device_xiaomi_camellia.Usb.Gadget.Links.{link_all}
use device_xiaomi_camellia.Usb.Gadget.Links.Laws.{
  links, numbered, link_all_lem, names_of, vendor_of,
}
use device_xiaomi_camellia.Usb.Gadget.TearDown.{is_function_link, tear_down_gadget}
use device_xiaomi_camellia.Usb.Gadget.TearDown.Laws.{removed, link_paths, tear_down_gadget_ok}

-- The numbers from `i` on.
pub numbers : ℕ → ℕ → List ℕ
numbers i zero = []
numbers i (suc n) = i ∷ numbers (i + 1) n

-- An entry that the tear-down leaves alone.
abbrev pub IsOther : String → Type 0
IsOther name = is_function_link name ≡ false

link_paths-append : (xs ys : List String) → link_paths (xs ++ ys) ≡ link_paths xs ++ link_paths ys
unfolding link_paths
link_paths-append [] ys = refl
link_paths-append (x ∷ xs) ys = ground (arith, link_paths-append xs ys)

link_paths-others : (names : List String) → All IsOther names → link_paths names ≡ []
unfolding link_paths
link_paths-others [] h = refl
link_paths-others (name ∷ names) (h, hs) = ground (arith, h, link_paths-others names hs)

module _ (decimal : ℕ → String) where
  -- The name that `linkFunction` gives the link with a number, and its path for `unlinkFunctions`.
  abbrev pub link_name : ℕ → String
  link_name i = "function" <> decimal i

  abbrev pub link_path : ℕ → String
  link_path i = "/config/usb_gadget/g1/configs/b.1//" <> link_name i

  link_name_is_link : (i : ℕ) → is_function_link (link_name i) ≡ true
  link_name_is_link i =
      let front : String.find (link_name i) "function" ≡ 0 = find-append _ _ (decimal i) in
      ground (arith, front)

  link_paths-links :
      (made : List (String × ℕ))
      → link_paths (map (λ link. link_name link.1) made) ≡ map (λ link. link_path link.1) made
  unfolding link_paths
  link_paths-links [] = refl
  link_paths-links ((target, i) ∷ made) = ground (arith, link_name_is_link i, link_paths-links made)

  link_paths-between :
      (before after : List String) (made : List (String × ℕ))
      → All IsOther before
      → All IsOther after
      → link_paths (before ++ (map (λ link. link_name link.1) made ++ after))
        ≡ map (λ link. link_path link.1) made
  link_paths-between before after made others others' =
      let links : List String = map (λ link. link_name link.1) made in
      link_paths-append before (links ++ after)
      ∙ ap (λ l. l ++ link_paths (links ++ after)) (link_paths-others before others)
      ∙ link_paths-append links after
      ∙ ap (λ l. link_paths links ++ l) (link_paths-others after others')
      ∙ append-nil (link_paths links)
      ∙ link_paths-links made

  numbered-numbers :
      (i : ℕ) (names : List String)
      → map (λ link. link_path link.1) (numbered i names) ≡ map link_path (numbers i (length names))
  unfolding numbered numbers
  numbered-numbers i [] = refl
  numbered-numbers i (name ∷ names) = ap (◌∷◌ (link_path i)) (numbered-numbers (i + 1) names)

-- Let the links of a request all succeed, with none logged before it, and let the configuration
-- list them when the gadget is torn down next, between entries whose names do not contain
-- `function`. If that succeeds, the links with the numbers below the index that the request ended
-- at are removed, in order, and no other entry is; the monitor thread is stopped, no endpoint is
-- left to monitor, and nothing else of the members has changed.
pub tear_down_gadget-link_all :
    (decimal : ℕ → String) (f : GadgetFunction) (functions j : ℕ) (made next : World)
    (before after : List String)
    → links made.trace ≡ []
    → (link_all f functions made).0 ≡ returns j
    → All IsOther before
    → All IsOther after
    → next.config_entries
      ≡ some (
          before
          ++ (map (λ link. link_name decimal link.1) (links (link_all f functions made).1.trace)
              ++ after))
    → (tear_down_gadget next).0 ≡ returns tt
    → (removed (tear_down_gadget next).1.trace
        ≡ removed next.trace ++ map (link_path decimal) (numbers 0 j))
      × ((tear_down_gadget next).1.gadget
          ≡ record next.gadget { monitor_created = false; endpoint_list = [] })
tear_down_gadget-link_all decimal f functions j made next before after fresh linked others others'
      listed done =
    let (all, count) = link_all_lem f functions j made linked in
    let names : List String = names_of (vendor_of made) f functions in
    let numbered_links : links (link_all f functions made).1.trace ≡ numbered 0 names =
      rw fresh at all in
    let (gone, members) = tear_down_gadget_ok _ next listed done in
    let linked_paths =
      link_paths-between decimal before after _ others others'
      ∙ ap (map (λ link. link_path decimal link.1)) numbered_links
      ∙ numbered-numbers decimal 0 names
      ∙ ap (λ n. map (link_path decimal) (numbers 0 n)) (sym count) in
    (gone ∙ ap (λ l. removed next.trace ++ l) linked_paths, members)
