-- ===== src/Tool/Mounter/Config.antt =====
-- The configuration of applyMountFlags of pkg/util/fs_util.go, as the lines of the file.
use dingofs_csi.Common.{
  ℕ, String, Bool, false, ◌&&◌, ◌||◌, List, [], ◌∷◌, Option, none, some, Dict, ◌==◌, if◌then◌else◌,
  map, nat_eq, lookup, insert, delete, has_prefix, split,
}
use Prim.Native.String
use Prim.Native.String.{◌∷◌ as cons_char, [] as no_text}
use Prim.Native.Char.{Char, code}

abbrev pub before : Char → Option (String × String) → Option (String × String)
before c none = none
before c (some (key, value)) = some (cons_char c key, value)

-- `strings.SplitN(s, sep, 2)` at a separator of one character, where the text has it.
unfoldable pub split_first : (sep : ℕ) → String → Option (String × String)
split_first sep no_text = none
split_first sep (cons_char c s) =
    let rest = before c (split_first sep s) in
    if nat_eq (code c) sep then some (no_text, s) else rest

-- A line that is not a comment and has an equals sign (61): its name and its value.
unfoldable pub entry_of : (line : String) → Option (String × String)
unfolding has_prefix split_first
entry_of line = if has_prefix line "#" then none else split_first 61 line

-- `configMap[parts[0]] = parts[1]`
abbrev pub insert_entry : Option (String × String) → Dict → Dict
insert_entry none config = config
insert_entry (some (key, value)) config = insert key value config

-- The loop over the lines that fills configMap.
unfoldable pub read_config : (lines : List String) → Dict → Dict
unfolding entry_of insert
read_config [] config = config
read_config (line ∷ lines) config = read_config lines (insert_entry (entry_of line) config)

-- The loop over the mount flags.
unfoldable pub apply_flags : (flags : List String) → Dict → Dict
unfolding split_first insert
apply_flags [] config = config
apply_flags (flag ∷ flags) config = apply_flags flags (insert_entry (split_first 61 flag) config)

abbrev pub enables : Option (String × String) → Bool
enables none = false
enables (some (key, value)) = key == "diskCache.diskCacheType" && (value == "2" || value == "1")

-- cacheEnabled
unfoldable pub cache_enabled : (flags : List String) → Bool
unfolding split_first
cache_enabled [] = false
cache_enabled (flag ∷ flags) = enables (split_first 61 flag) || cache_enabled flags

-- `strings.Join`
unfoldable pub join : (sep : String) → List String → String
join sep [] = ""
join sep (x ∷ []) = x
join sep (x ∷ y ∷ xs) = String.◌++◌ x (String.◌++◌ sep (join sep (y ∷ xs)))

abbrev pub in_directory : (directory name : String) → String
in_directory directory name = String.◌++◌ directory (String.◌++◌ "/" name)

-- A cache directory of the mount, with the capacity after ":" (58) where there is one.
abbrev pub with_capacity : (uuid whole : String) → Option (String × String) → String
with_capacity uuid whole none = in_directory whole uuid
with_capacity uuid whole (some (directory, capacity)) =
    String.◌++◌ (in_directory directory uuid) (String.◌++◌ ":" capacity)

abbrev pub without_capacity : (uuid whole : String) → Option (String × String) → String
without_capacity uuid whole none = in_directory whole uuid
without_capacity uuid whole (some (directory, capacity)) = in_directory directory uuid

unfoldable pub cache_dirs_with_capacity : (uuid value : String) → String
unfolding split_first split join
cache_dirs_with_capacity uuid value =
    join ";" (map (λ dir. with_capacity uuid dir (split_first 58 dir)) (split value ";"))

unfoldable pub cache_dirs_paths : (uuid value : String) → String
unfolding split_first split join
cache_dirs_paths uuid value =
    join ";" (map (λ dir. without_capacity uuid dir (split_first 58 dir)) (split value ";"))

abbrev pub cache_dir_key : String
cache_dir_key = "disk_cache.cache_dir"

-- The value that a line of the file gets.
abbrev pub new_value : (uuid key value : String) → String
new_value uuid key value =
    if key == cache_dir_key then cache_dirs_with_capacity uuid value else value

abbrev pub assignment : (key value : String) → String
assignment key value = String.◌++◌ key (cons_char "=" value)

abbrev pub replaced : (uuid line key : String) → (config : Dict) → Option String → String × Dict
replaced uuid line key config none = (line, config)
replaced uuid line key config (some value) =
    (assignment key (new_value uuid key value), delete key config)

-- The line that is written for a line, with what is left of configMap.
abbrev pub written :
    (uuid line : String) → Option (String × String) → (config : Dict) → String × Dict
written uuid line none config = (line, config)
written uuid line (some (key, old)) config = replaced uuid line key config (lookup key config)

-- newData by its lines: those of the file, and then the remaining items.
unfoldable pub new_lines : (uuid : String) → (lines : List String) → (config : Dict) → List String
unfolding entry_of lookup delete cache_dirs_with_capacity
new_lines uuid [] config = map (λ (key, value). assignment key value) config
new_lines uuid (line ∷ lines) config =
    (written uuid line (entry_of line) config).0
    ∷ new_lines uuid lines (written uuid line (entry_of line) config).1

abbrev pub is_cache_dir_line : Option (String × String) → Bool
is_cache_dir_line none = false
is_cache_dir_line (some (key, value)) = key == cache_dir_key

-- `cm.mounterParams["cache_dir"]`, which is set where a line of the file has the key.
unfoldable pub cache_dir_of :
    (uuid : String) → (lines : List String) → (config : Dict) → Option String
unfolding entry_of lookup cache_dirs_paths
cache_dir_of uuid [] config = none
cache_dir_of uuid (line ∷ lines) config =
    let rest = cache_dir_of uuid lines config in
    if is_cache_dir_line (entry_of line)
    then elim (lookup cache_dir_key config) [
      | none ↦ none
      | some value ↦ some (cache_dirs_paths uuid value)
    ]
    else rest
