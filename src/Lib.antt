-- ===== src/Lib.antt =====
-- FuriOS initial setup: the program that a phone runs before its first use. A window shows pages, one
-- after the other; some of them do work in the background and make the user wait for it.
--
-- src/pt-update-progress.c, the update page, is modelled in Update: the page's private data is the
-- record Progress of Update/State, with the fields of PtUpdateProgressPrivate and the visible state of
-- its widgets, and each callback is a function of the callback's name from Progress to Progress.
-- Update/Time has the clock, Update/Provision the request and the script of the provisioning server,
-- Update/Transaction the transactions of aptkit, and Update/Step every entry of the main loop as one
-- step function. Calls of GLib, D-Bus and libsoup are entries of the field log, newest first; what
-- they return comes in as an argument of the callback (Update.State.Env for time and timer handles).
-- ed25519_verify, base64 and URI escaping are parameters (Update.Provision.Library).
--
-- src/run-passwd.c is modelled in Passwd: the handler is PasswdHandler of Passwd/State, with the
-- static buffer of io_watch_stdout as a field; Passwd/Process has the process and the queue,
-- Passwd/Messages the words in its output, Passwd/Watch the two watches. A callback is called by a
-- parameter, notify, which src/pt-security-settings.c fills in Security/Apply; so the change of the
-- password is followed from the password page to passwd and back. Security/Entry has the two entries.
--
-- src/pt-window.c is modelled in Window: the record Window of Window/State has the window's fields, and
-- the carousel with its pages by number. Window/Pages has the index of a page and the buttons,
-- Window/Skip the update page and the banner that skips it, Window/Commits the commits of the language
-- and the password, and Window/Step every entry as one step function. The window holds the update
-- page's Progress and calls the functions of Update on it; the commit of the password runs the function
-- of Security, whose answer, at once or later, is an input. Which page commits what is a parameter,
-- commits, as src/ui/pt-window.ui says it.
--
-- Setup puts the window, the password page, passwd and the language chooser together: the record Setup of
-- Setup/State has their states with one static buffer and one log for all changes of the password, and
-- Setup/Step is one step function over what the user does and what the processes print. A change is the
-- handler that one press of Finish makes; several may run, and a callback is called only while the source
-- has its watch. Setup/Refines has the window of a step of the program as a run of the window alone, Setup/Sent has what is known of a
-- change by its state, Setup/Held which passwords the entry held, Setup/Reads and Setup/Ends are about its
-- callbacks, Setup/Safety joins it with the window, Setup/Calls and Setup/Applied have the language, and
-- Setup/Finish follows a change to its end. There is one password page.
--
-- src/cc-network-list.c is modelled in Network: Network/Points has the choice of access points, and
-- Network/Rows the rows made of them, the picture of the connection and the timer of the refresh;
-- NetworkManager's accessors are a parameter, and what it says of the device is an argument of the
-- refresh.
--
-- src/pt-security-settings-face.c is modelled in Face: the record Face of Face/State has the fields of
-- PtSecuritySettingsPrivate that it uses, Face/Agent the agent from its creation to its end with the
-- camera, Face/Frames and Face/Write a frame on its way to biomd, and Face/Step every callback as one
-- step function. What D-Bus, GStreamer and the calls on the memory file return is an argument. There a
-- sample of the camera is one step; Face/Thread has it as three, since submit_frame runs in a thread of its
-- own: up to where the frame is taken, up to where it is stored and counted, and the call. Between them the
-- main loop may run callbacks, each of which is one step; one that stops the camera waits until the frame
-- is on its way. That submit_frame reads its flags one by one, and the count without a lock, is left out.
--
-- src/pt-security-settings-fingerprint.c is modelled in Fingerprint, in the same way: Fingerprint/State
-- has the list of fingers, Fingerprint/Signals what biomd tells, and Fingerprint/Step the start and the
-- choice of a finger. Widgets is the tree of widgets that both files search through by name; its
-- numbers stand for pointers.
--
-- src/cc-language-chooser.c, src/cc-common-language.c and src/cc-util.c are modelled in Language:
-- Language/Rows has the rows with their comparison and filter, Language/Locales the first languages and
-- the fonts, Language/Normalize the loop that takes combining marks out of a sort key, in its buffer and
-- with both indexes, Language/Chooser the chooser and its callbacks, and Language/Retranslate the walk
-- through all labels. gnome-desktop, fontconfig and UTF-8 are parameters, the last with laws that Language/Utf8 fulfils, and so is GTK's list box, with
-- what is documented of its sorting as IsSortedBox in Language/Sorted, which Language/Box fulfils. The
-- hash table of the first languages is a list in the order in which it is gone through, and
-- Language/Permuted is about that order.
--
-- src/pt-page.c is modelled in Page: the record PtPage has its private data, and Page/Properties the
-- functions of its properties. src/pt-application.c is modelled in Application, the activation.
--
-- Smaller parts: Biomd has what comes of a call of biomd that is waited for, Security/Groups the start
-- and the end of the password page with both enrolments, Network/Connect the choice of a Wi-Fi device and
-- of a network, Window/Appearance what the user sets of the screen, and Window/Shown the backdrop, the
-- button forward and the start of the window.
--
-- Bounds: the counters of the update page wrap at 2^32, as guint does, and the size of a frame at 2^64.
-- The counts of pages, commits, frames without an answer and timers are not wrapped. The progress of the
-- bar is in hundredths, which the program's values allow. Times are microseconds of the monotonic clock.
-- Positions in the carousel are in ten-thousandths of a page. The loop of
-- Language/Normalize has fuel, one more than the text has bytes, which is enough since each round goes on
-- by a byte or more; write_all runs on the list of what the calls of write return. Every other loop is a
-- recursion on a list or a tree.
--
-- Not modelled: GObject's class initialisation, the layout of widgets, debug messages, and the copy of the
-- ed25519 library in src/ed25519. Of what has no effect but a message, some is left out: a failed write to
-- the channel of passwd, and StateChanged of biomd. What GTK, GLib, GStreamer and D-Bus do inside a call is
-- theirs, so it is an argument or a parameter, and two steps of the main loop never overlap.
pub mod Common
pub mod Update
pub mod Page
pub mod Biomd
pub mod Passwd
pub mod Security
pub mod Network
pub mod Window
pub mod Face
pub mod Widgets
pub mod Fingerprint
pub mod Language
pub mod Setup
pub mod Application
