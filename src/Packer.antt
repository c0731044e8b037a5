-- ===== src/Packer.antt =====
-- The images that servers start from (pkg/packer/packer.go, pkg/packer/api/api.go). A build runs in a
-- process of its own, with an entry under the hash of its parameters.
pub mod Latest
pub mod Builds
pub mod Steps
mod Tests
use cluster_api_provider_hcl.Base.{
  Text, text, ℕ, Bool, true, false, not, Option, none, some, List, [], ◌∷◌, ◌++◌, Dict, lookup, put,
  erase, ltb, ◌||◌, ◌&&◌, if◌then◌else◌,
}
use cluster_api_provider_hcl.Exec.{Error, wrapped, Result, ok, err, Reply, success, refusal, Exec}
use cluster_api_provider_hcl.Api.Tags.{name_hcloud_provider_prefix}

-- `PackerParameters`
pub record PackerParameters : Type 0 where
  pub kubernetes_version : Text
  pub image : Text

-- `hcloud.Image`, with the fields that the code reads; a time is a number.
pub record Image : Type 0 where
  pub id : ℕ
  pub is_available : Bool
  pub created : ℕ

-- `build`, without the command.
pub record Build : Type 0 where
  pub terminated : Bool
  pub result : Option Error

-- What happened outside: a query for images, a start of a process that failed, one that succeeded,
-- and the end of a process.
pub data PackerCall : Type 0 where
  list_images start_refused started ended : Text → PackerCall

-- `Packer`, with what happened so far, newest first.
pub record Packer : Type 0 where
  pub builds : Dict Build
  pub trace : List PackerCall

-- The answers of the cloud and of the operating system, and MD5 in hexadecimal.
pub record PackerEnv : Type 0 where
  pub list_images : List PackerCall → Text → Reply (List Image)
  pub start_build : List PackerCall → Text → Reply (Unit {0})
  pub md5 : Text → Text

abbrev pub image_version : Text
image_version = text "2"

-- `Hash`
unfoldable pub hash : PackerEnv → PackerParameters → Text
hash env p = env.md5 (image_version ++ (p.kubernetes_version ++ p.image))

-- The later of an image and the image so far; the earlier one stays when they are of one time.
unfoldable pub newer : Image → Option Image → Image
newer i none = i
newer i (some best) = if ltb best.created i.created then i else best

-- The loop over the images, with the image so far.
unfoldable pub latest : List Image → Option Image → Option Image
unfolding newer
latest [] image = image
latest (i ∷ images) image =
    latest images (if not i.is_available then image else some (newer i image))

-- `EnsureImage` once no image has been found
unfoldable pub start : PackerEnv → Text → Exec Packer (Option ℕ)
start env h s = elim (env.start_build s.trace h) [
  | refusal e ↦ (err e, record s { trace = start_refused h ∷ s.trace })
  | success u ↦ (
    ok none,
    record {
      builds = put h (record { terminated = false; result = none }) s.builds;
      trace = started h ∷ s.trace;
    },
  )
]

-- `EnsureImage` once no build of the hash is there
unfoldable pub query : PackerEnv → Text → Exec Packer (Option ℕ)
unfolding latest start
query env h s =
    let selector = name_hcloud_provider_prefix ++ (text "template-hash" ++ (text "==" ++ h)) in
    let s' = record s { trace = list_images selector ∷ s.trace } in
    elim (env.list_images s.trace selector) [
      | refusal e ↦ (err e, s')
      | success images ↦ elim (latest images none) [
        | some image ↦ (ok (some image.id), s')
        | none ↦ start env h s'
      ]
    ]

-- `EnsureImage` from the hash on
unfoldable pub ensure_hash : PackerEnv → Text → Exec Packer (Option ℕ)
unfolding query
ensure_hash env h s = elim (lookup h s.builds) [
  | none ↦ query env h s
  | some b ↦ if not b.terminated then (ok none, s) else elim (b.result) [
    | some e ↦
        (err (wrapped (text "%v stdout=%s stderr=%s") e), record s { builds = erase h s.builds })
    | none ↦ query env h (record s { builds = erase h s.builds })
  ]
]

-- `EnsureImage`
unfoldable pub ensure_image : PackerEnv → PackerParameters → Exec Packer (Option ℕ)
unfolding hash ensure_hash
ensure_image env p = ensure_hash env (hash env p)

-- The goroutine of `Start` when the process of a hash ends
unfoldable pub end_build : Text → Option Error → Packer → Packer
end_build h result s = record {
  builds = put h (record { terminated = true; result = result }) s.builds;
  trace = ended h ∷ s.trace;
}
