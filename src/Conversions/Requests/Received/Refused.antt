-- ===== src/Conversions/Requests/Received/Refused.antt =====
-- Requests that are not as the kernel writes them.
use fusego.Base.{panics}
use fusego.Conversions.Fields.{InHeader}
use fusego.Base.{◌+◌, ◌-◌, ◌≡◌, false, none, [], ◌++◌, arith, leb, length, length-append}
use fusego.Bytes.{Bytes}
use fusego.Buffer.Outgoing.{OutMessage}
use fusego.Conversions.Fields.{nul_index}
use fusego.Conversions.Incoming.Names.{convert_symlink}
use fusego.Conversions.Requests.{Request, getattr, open_file, opendir, struct_of, nul, struct_of}
use fusego.Conversions.Requests.Reading.{holding, rest_of-eq, ends_in_nul-append, nul_index-append}

-- All requests but three: the structs of those three are never looked at.
abbrev pub IsReadStruct : Request → Type 0
IsReadStruct getattr = ⊥
IsReadStruct open_file = ⊥
IsReadStruct opendir = ⊥
IsReadStruct _ = Unit {0}

-- A symbolic link's request whose only NUL is its last byte makes convertInMessage panic: it is neither
-- refused nor taken, whatever the name before the NUL.
pub convert_symlink-one_nul :
    (h : InHeader) (name st : Bytes) (out : OutMessage)
    → nul_index name ≡ none
    → convert_symlink h (holding st (name ++ nul)) out ≡ panics
unfolding convert_symlink
convert_symlink-one_nul h name st out clean =
    let over : leb (length name + 1) (length (name ++ nul) - 1) ≡ false =
      ground (arith, length-append name nul) in
    rw (
      convert_symlink,
      rest_of-eq (holding st (name ++ nul)),
      ends_in_nul-append name,
      nul_index-append name [] clean,
      rest_of-eq (holding st (name ++ nul)),
      over,
    )
