-- ===== src/Podcast/Icon.antt =====
-- The icon of a podcast source in libsrc/PodcastSource.cpp, and store_image of
-- libsrc/podcast_serializer.cpp. `files` says which paths exist. The file name of a URL and the hash
-- of it are Qt's: `file_name` is create_image_file_name for this source and `in_cache` the path in
-- the cache directory.
use digital_rooster_gui.Base.{
  ◌≡◌, ◌≢◌, refl, String, Bool, true, false, not, ◌||◌, ◌&&◌, List, [], ◌∷◌, ◌++◌, arith, str_eq,
  eq_iff, if◌then◌else◌,
}
use digital_rooster_gui.Podcast.{
  PodcastSource, Effect, icon_changed, data_changed, remove_file, download,
}

abbrev pub Files : Type 0
Files = String → Bool

-- QFile::remove, and a file that is written.
abbrev pub without : Files → String → Files
without files path q = if str_eq path q then false else files q

abbrev pub with_file : Files → String → Files
with_file files path q = if str_eq path q then true else files q

unfoldable pub trigger_image_download : PodcastSource → List Effect
trigger_image_download s =
    if not (str_eq s.icon_url "") && s.serializer then download s.icon_url ∷ [] else []

unfoldable pub set_image_file_path :
    Files → PodcastSource → String → Files × PodcastSource × List Effect
set_image_file_path files s path =
    let moved : PodcastSource = record s { image_file_path = path } in
    if files s.image_file_path
    then (
      without files s.image_file_path,
      moved,
      remove_file s.image_file_path ∷ icon_changed ∷ data_changed ∷ [],
    )
    else (files, moved, icon_changed ∷ data_changed ∷ [])

unfoldable pub get_icon : Files → PodcastSource → String × List Effect
unfolding trigger_image_download
get_icon files s =
    if files s.image_file_path
    then (s.image_file_path, [])
    else (s.icon_url, trigger_image_download s)

module _ (file_name : String → String) (local_name : String → String)
    (in_cache : String → String) where
  note_url : PodcastSource → String → PodcastSource × List Effect
  note_url s uri =
      if str_eq uri s.icon_url
      then (s, [])
      else (record s { icon_url = uri }, icon_changed ∷ data_changed ∷ [])

  -- `local_name` is the file name of a local path.
  unfoldable pub set_image_url : Files → PodcastSource → String → PodcastSource × List Effect
  unfolding note_url trigger_image_download
  set_image_url files s uri =
      let (s', effects) = note_url s uri in
      (
        s',
        effects
            ++ (if not (files s'.image_file_path)
                  || not (str_eq (local_name s'.image_file_path) (file_name uri))
                then trigger_image_download s'
                else []),
      )

  -- `saved` is whether QImage::save wrote the file.
  unfoldable pub store_image : Bool → Files → PodcastSource → Files × PodcastSource × List Effect
  unfolding set_image_file_path
  store_image saved files s =
      let image_file_path = in_cache (file_name s.icon_url) in
      if saved
      then set_image_file_path (with_file files image_file_path) s image_file_path
      else set_image_file_path files s ""

  -- An icon that is stored under another path than the icon before exists afterwards, is the one
  -- that is shown, and the file of the icon before is gone.
  pub store_image_replaces :
      (files : Files) (s : PodcastSource)
      → s.image_file_path ≢ in_cache (file_name s.icon_url)
      → let r = store_image true files s in
        (r.0 (in_cache (file_name s.icon_url)) ≡ true)
        × (r.0 s.image_file_path ≡ false)
        × (get_icon r.0 r.1 ≡ (in_cache (file_name s.icon_url), []))
  unfolding store_image get_icon
  store_image_replaces files s n =
      let path = in_cache (file_name s.icon_url) in
      let itself : str_eq path path ≡ true = (eq_iff path path).1 refl in
      (
        ground (arith, itself, eq_iff s.image_file_path path),
        ground (arith, eq_iff s.image_file_path s.image_file_path, eq_iff path s.image_file_path),
        ground (arith, itself, eq_iff s.image_file_path path),
      )

  -- An icon that is stored under the path of the icon before is removed right after it was written,
  -- and the next request for it downloads it again.
  pub store_image_removes :
      (files : Files) (s : PodcastSource)
      → s.image_file_path ≡ in_cache (file_name s.icon_url)
      → s.icon_url ≢ ""
      → s.serializer ≡ true
      → let r = store_image true files s in
        (r.0 (in_cache (file_name s.icon_url)) ≡ false)
        × (get_icon r.0 r.1 ≡ (s.icon_url, download s.icon_url ∷ []))
  unfolding store_image get_icon
  store_image_removes files s same url kept = (
    ground (
      arith,
      eq_iff s.image_file_path s.image_file_path,
      eq_iff s.image_file_path (in_cache (file_name s.icon_url)),
    ),
    ground (
      arith,
      eq_iff s.image_file_path s.image_file_path,
      eq_iff s.icon_url "",
      eq_iff s.image_file_path (in_cache (file_name s.icon_url)),
    ),
  )
