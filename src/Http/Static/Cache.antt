-- ===== src/Http/Static/Cache.antt =====
-- The cache of small files of static-service.ts.
use kenojs.Prelude.{
  ℕ, suc, ◌≤◌, ◌<◌, ◌≡◌, false, not, ◌&&◌, Option, none, some, List, [], ◌∷◌, ◌==◌, ltb, if_rule,
  Option_rule, length, arith,
}
use kenojs.Prelude.Maps.{get, set, delete, get-set, get-delete}
use kenojs.Prelude.Text.{Text, same_text_iff, text_key, is_empty}
use kenojs.Http.Static.{
  Platform, CachedFileEntry, max_cached_small_files, small_file_cache_limit, evict, read_small_file,
  get_small_file_buffer,
}

module _ {V : Type 0} where
  length-set : (k : Text) (v : V) (m : List (Text × V)) → length (set k v m) ≤ suc (length m)
  unfolding set
  length-set k v [] = omega arith
  length-set k v ((j, w) ∷ m) = ground (arith, length-set k v m)

  length-delete : (k : Text) (m : List (Text × V)) → length (delete k m) ≤ length m
  unfolding delete
  length-delete k [] = omega arith
  length-delete k ((j, w) ∷ m) = ground (arith, length-delete k m)

  length-delete_head :
      (k : Text) (v : V) (m : List (Text × V)) → length (delete k ((k, v) ∷ m)) ≤ length m
  unfolding delete
  length-delete_head k v m = ground (arith, same_text_iff k k, length-delete k m)

  length-delete_present :
      (k : Text) (v : V) (m : List (Text × V)) → get k m ≡ some v → length (delete k m) < length m
  unfolding get delete
  length-delete_present k v [] h = cc
  length-delete_present k v ((j, w) ∷ m) h =
      ground (arith, length-delete k m, length-delete_present k v m)

module _ {B : Type 0} (io : Platform B) where
  -- The cache keeps its bound and has no empty key, and every entry is of a file that was read
  -- when it had the entry's time and size.
  pub record Good (content : Text → ℕ → ℕ → B) (cache : List (Text × CachedFileEntry B))
      : Type 0 where
    pub bounded : length cache ≤ max_cached_small_files
    pub named : (k : Text) (e : CachedFileEntry B) → get k cache ≡ some e → is_empty k ≡ false
    pub fresh :
        (k : Text) (e : CachedFileEntry B)
        → get k cache ≡ some e
        → e.buffer ≡ content k e.mtime_ms e.size

  evict-bounded :
      (cache : List (Text × CachedFileEntry B))
      → length cache ≤ suc max_cached_small_files
      → ((k : Text) (e : CachedFileEntry B) → get k cache ≡ some e → is_empty k ≡ false)
      → length (evict cache) ≤ max_cached_small_files
  unfolding evict get
  evict-bounded [] h n = omega arith
  evict-bounded ((k, e) ∷ cache) h n =
      ground (arith, length-delete_head k e cache, n k e, same_text_iff k k)

  get-evict :
      (j : Text) (e : CachedFileEntry B) (cache : List (Text × CachedFileEntry B))
      → get j (evict cache) ≡ some e
      → get j cache ≡ some e
  unfolding evict
  get-evict j e [] h = h
  get-evict j e ((k, v) ∷ cache) h =
      if_rule
        (λ (m : List (Text × CachedFileEntry B)).
          get j m ≡ some e → get j ((k, v) ∷ cache) ≡ some e)
        (ltb max_cached_small_files (length ((k, v) ∷ cache)) && not (is_empty k))
        (λ t g. ground (arith, get-delete k j ((k, v) ∷ cache))) (λ t g. g) h

  -- The buffer for the caller, if there is one, is the content, and the cache after it is good.
  abbrev pub Serves :
      (Text → ℕ → ℕ → B)
      → Text
      → ℕ
      → ℕ
      → Option (Option B × List (Text × CachedFileEntry B))
      → Type 0
  Serves content path mtime_ms size none = Unit
  Serves content path mtime_ms size (some (buffer, cache)) =
      Good content cache × ((b : B) → buffer ≡ some b → b ≡ content path mtime_ms size)

  module _ (content : Text → ℕ → ℕ → B) (path : Text) (mtime_ms size : ℕ)
      (path_named : is_empty path ≡ false)
      (current : (b : B) → io.read_file path ≡ some b → b ≡ content path mtime_ms size) where
    abbrev Buffered : Option (Option B × List (Text × CachedFileEntry B)) → Type 0
    Buffered = Serves content path mtime_ms size

    put-Good :
        (cache : List (Text × CachedFileEntry B)) (b : B)
        → b ≡ content path mtime_ms size
        → Good content cache
        → Good content
            (evict (set path (record { buffer = b; mtime_ms = mtime_ms; size = size }) cache))
    put-Good cache b e v =
        let entry : CachedFileEntry B = record { buffer = b; mtime_ms = mtime_ms; size = size } in
        let wider = set path entry cache in
        let wider_named : (k : Text) (f : CachedFileEntry B)
            → get k wider ≡ some f
            → is_empty k ≡ false =
          λ k f h. ground (arith, get-set path k entry cache, same_text_iff path k, v.named k f) in
        record {
          bounded =
              evict-bounded wider (omega (arith, length-set path entry cache, v.bounded))
                wider_named;
          named = λ k f h. wider_named k f (get-evict k f wider h);
          fresh = λ k f h. ground (
            arith,
            get-evict k f wider h,
            get-set path k entry cache,
            same_text_iff path k,
            v.fresh k f,
          );
        }

    read-Serves :
        (cache : List (Text × CachedFileEntry B))
        → Good content cache
        → Serves content path mtime_ms size (read_small_file io cache path mtime_ms size)
    unfolding read_small_file
    read-Serves cache v =
        Option_rule Buffered (io.read_file path) (λ e. tt)
          (λ b e.
            if_rule Buffered (not (io.byte_length b == size))
              (λ f. (v, λ c g. ground (arith, current c)))
              (λ f. (put-Good cache b (current b e) v, λ c g. ground (arith, current c))))

    touch-Good :
        (cache : List (Text × CachedFileEntry B)) (e : CachedFileEntry B)
        → get path cache ≡ some e
        → Good content cache
        → Good content (set path e (delete path cache))
    touch-Good cache e h v = record {
      bounded = omega (
        arith,
        length-set path e (delete path cache),
        length-delete_present path e cache h,
        v.bounded,
      );
      named = λ k f g. ground (
        arith,
        get-set path k e (delete path cache),
        get-delete path k cache,
        same_text_iff path k,
        v.named k f,
      );
      fresh = λ k f g. ground (
        arith,
        get-set path k e (delete path cache),
        get-delete path k cache,
        same_text_iff path k,
        v.fresh k f,
        h,
        v.fresh path e h,
      );
    }

    -- Where what is read of the file is its content at its time and size, a request keeps the
    -- cache good, at most 128 entries among that, and is served just that content or no buffer.
    pub get_small_file_buffer-Serves :
        (cache : List (Text × CachedFileEntry B))
        → Good content cache
        → Serves content path mtime_ms size (get_small_file_buffer io cache path mtime_ms size)
    unfolding get_small_file_buffer
    get_small_file_buffer-Serves cache v =
        if_rule Buffered (ltb small_file_cache_limit size) (λ e. (v, λ b g. cc))
          (λ e.
            Option_rule Buffered (get path cache) (λ f. read-Serves cache v)
              (λ cached f.
                if_rule Buffered ((cached.mtime_ms == mtime_ms) && (cached.size == size))
                  (λ g. (touch-Good cache cached f v, λ b h. ground (arith, v.fresh path cached f)))
                  (λ g. read-Serves cache v)))
