-- ===== src/Init/Utils/Description.antt =====
-- The description of a fingerprint of the documented form.
use Prim.Native.Char.{Char}
use device_xiaomi_camellia.Base.Texts.{cut, cut_part}
use device_xiaomi_camellia.Base.{◌≡◌, refl, none, String, ◌<>◌}
use device_xiaomi_camellia.Init.Utils.{find_and_remove, fingerprint_to_description}

find_and_remove_part :
    (c : Char) (part rest : String)
    → cut (String.◌∷◌ c "") part ≡ none
    → find_and_remove (String.◌∷◌ c "") (part <> (String.◌∷◌ c "" <> rest)) ≡ (part, rest)
unfolding find_and_remove
find_and_remove_part c part rest free = rw (cut_part c part rest free, find_and_remove) refl

-- A fingerprint of the documented form, whose parts contain none of the delimiters behind them,
-- gets the documented description.
pub fingerprint_to_description_lem :
    (brand product device platform_version build_id build_number build_variant tags : String)
    → cut "/" brand ≡ none
    → cut "/" product ≡ none
    → cut ":" device ≡ none
    → cut "/" platform_version ≡ none
    → cut "/" build_id ≡ none
    → cut ":" build_number ≡ none
    → cut "/" build_variant ≡ none
    → fingerprint_to_description (
        brand
        <> ("/"
            <> (product
                <> ("/"
                    <> (device
                        <> (":"
                            <> (platform_version
                                <> ("/"
                                    <> (build_id
                                        <> ("/"
                                            <> (build_number
                                                <> (":"
                                                    <> (build_variant <> ("/" <> tags))))))))))))))
      ≡ product
        <> ("-"
            <> (build_variant
                <> (" "
                    <> (platform_version
                        <> (" " <> (build_id <> (" " <> (build_number <> (" " <> tags)))))))))
unfolding fingerprint_to_description
fingerprint_to_description_lem brand product device version id number variant tags b p d v i n t =
    rw
      (
        find_and_remove_part "/" brand _ b,
        find_and_remove_part "/" product _ p,
        find_and_remove_part ":" device _ d,
        find_and_remove_part "/" version _ v,
        find_and_remove_part "/" id _ i,
        find_and_remove_part ":" number _ n,
        find_and_remove_part "/" variant _ t,
      )
      refl
