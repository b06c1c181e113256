-- ===== src/Reconcile/Messages.antt =====
-- The messages of rejections and failed interpolations (src/membership.rs, src/name.rs,
-- src/template.rs).
use byssus.Base.{◌/◌, ◌%◌, ◌∷◌, ◌++◌, Text, text, decimal, hex_digit}
use byssus.Name.{NameError, empty, too_long, leading_dot, invalid_byte}
use byssus.Membership.{
  EntryKind, regular, directory, symlink, fifo, socket, char_device, block_device, unknown,
  RejectReason, invalid_name, not_regular_file, not_directory, not_empty, inaccessible,
}
use byssus.Template.{
  InterpolateError, component_too_long, path_too_long, invalid_component, unbound_level,
  wrong_depth,
}

abbrev name_message : NameError → Text
name_message empty = text "name is empty"
name_message (too_long n) = text "name is " ++ (decimal n ++ text " bytes long; the maximum is 255")
name_message leading_dot = text "name begins with '.'"
name_message (invalid_byte byte offset) =
    text "name contains disallowed byte 0x"
    ++ (hex_digit (byte / 16) ∷ hex_digit (byte % 16) ∷ (text " at offset " ++ decimal offset))

abbrev kind_message : EntryKind → Text
kind_message (regular size) = text "regular file"
kind_message directory = text "directory"
kind_message symlink = text "symbolic link"
kind_message fifo = text "FIFO"
kind_message socket = text "socket"
kind_message char_device = text "character device"
kind_message block_device = text "block device"
kind_message unknown = text "unknown file type"

unfoldable pub reason_message : RejectReason → Text
reason_message (invalid_name e) = text "name fails allowlist: " ++ name_message e
reason_message (not_regular_file kind) =
    text "not a regular file (" ++ (kind_message kind ++ text ")")
reason_message (not_directory kind) = text "not a directory (" ++ (kind_message kind ++ text ")")
reason_message (not_empty size) = text "file is not empty (" ++ (decimal size ++ text " bytes)")
reason_message (inaccessible e) = text "cannot inspect entry: " ++ e

unfoldable pub interpolation_message : InterpolateError → Text
interpolation_message (component_too_long n) =
    text "interpolated path component is " ++ (decimal n ++ text " bytes long; the maximum is 255")
interpolation_message (path_too_long n) =
    text "interpolated path is " ++ (decimal n ++ text " bytes long; the maximum is 4095")
interpolation_message (invalid_component c) =
    text "interpolated path component '" ++ (c ++ text "' is not a plain name")
interpolation_message unbound_level = text "unbound group set placeholder"
interpolation_message wrong_depth = text "group path does not match set depth"
